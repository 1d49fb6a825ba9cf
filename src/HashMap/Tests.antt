-- ===== src/HashMap/Tests.antt =====
-- A map of two buckets: runs of the code, and each theorem at an input that meets its hypotheses.
use io_uring_net_engine.Prelude.{ℕ, ◌≡◌, refl, arith, none, some, List, [], ◌∷◌, if◌then◌else◌}
use io_uring_net_engine.HashMap.{
  HashMap, same_key, hash_func, hash_from, bucket_index, chain_find, chain_erase, find_key,
  insert_key, erase_key, erase_at, next_power_of_two, smear,
}
use io_uring_net_engine.HashMap.Refine.{Valid}
use io_uring_net_engine.HashMap.Calls.{insert_key-Valid, erase_key-Valid}

-- 'a' and 'c' stand in the first bucket, 'b' in the other.
abbrev two_chains : HashMap ℕ
two_chains = record {
  buckets = ((99 ∷ [], 3) ∷ (97 ∷ [], 1) ∷ []) ∷ ((98 ∷ [], 2) ∷ []) ∷ [];
  size = 3;
}

two_chains-Valid : Valid two_chains
unfolding bucket_index hash_func hash_from chain_find
two_chains-Valid = record {
  placed = ((refl, (refl, (refl, (refl, tt)))), ((refl, (refl, tt)), tt));
}

rounds_up : next_power_of_two 100 ≡ 128
unfolding next_power_of_two smear
rounds_up = refl

erases : find_key (erase_key two_chains (99 ∷ [])) (97 ∷ []) ≡ some 1
unfolding find_key erase_key erase_at chain_erase bucket_index hash_func hash_from chain_find
erases = refl

insert_key-Valid_example :
    Valid (insert_key two_chains (100 ∷ []) 4)
    × ((k : List ℕ)
        → find_key (insert_key two_chains (100 ∷ []) 4) k
          ≡ (if same_key (100 ∷ []) k then some 4 else find_key two_chains k))
insert_key-Valid_example = insert_key-Valid two_chains (100 ∷ []) 4 two_chains-Valid (omega arith)

erase_key-Valid_example :
    Valid (erase_key two_chains (99 ∷ []))
    × ((k : List ℕ)
        → find_key (erase_key two_chains (99 ∷ [])) k
          ≡ (if same_key (99 ∷ []) k then none else find_key two_chains k))
erase_key-Valid_example = erase_key-Valid two_chains (99 ∷ []) two_chains-Valid
