-- ===== src/HashMap/Calls.antt =====
-- engine-uring/src/sds/cstr_hash_map.h: insert, erase and reserve, whatever the map's state is.
use io_uring_net_engine.Prelude.{
  ℕ, ◌*◌, ◌^◌, ◌≤◌, ◌≡◌, refl, arith, Bool, true, false, Option, none, some, List, length, ltb,
  ◌==◌, if◌then◌else◌, Bool-cases, inl, inr,
}
use io_uring_net_engine.HashMap.{
  HashMap, next_power_of_two, smear, same_key, chain_find, chain_of, find_key, rehash_to,
  reserve_map, insert_at, insert_key, erase_at, erase_key,
}
use io_uring_net_engine.HashMap.Refine.{
  Valid, Holds, Holds-Valid, Valid-Holds, rehash_to-Holds, length-rehash_to, insert_at-Holds,
  erase_at-Holds,
}

first_capacity : next_power_of_two 64 ≡ 64
unfolding next_power_of_two smear
first_capacity = refl

module _ {V : Type 0} where
  -- For a valid map of at most 2^62 buckets, insert gives a valid map in which the key has the value
  -- and every other key has what it had, whether the key was there or not, whether the buckets were
  -- doubled, and also when the map had none since it was moved from.
  pub insert_key-Valid :
      (m : HashMap V) (key : List ℕ) (value : V)
      → Valid m
      → length m.buckets * 2 ≤ 2 ^ 63
      → Valid (insert_key m key value)
        × ((k : List ℕ)
            → find_key (insert_key m key value) k
              ≡ (if same_key key k then some value else find_key m k))
  unfolding insert_key
  insert_key-Valid m key value v small = elim (Bool-cases (length m.buckets == 0)) [
    | inl e ↦ rw e (
        inserted (rehash_to m 64) (rehash_to-Holds m 64 v (omega arith))
          (omega (arith, length-rehash_to m 64 v (omega arith), first_capacity)))
    | inr e ↦ rw e (inserted m (Valid-Holds m v (ground (arith, e))) small)
  ]
    where
      inserted :
          (m' : HashMap V)
          → Holds m' (λ k. find_key m k)
          → length m'.buckets * 2 ≤ 2 ^ 63
          → Valid (insert_at m' key value (chain_find (chain_of m' key) key))
            × ((k : List ℕ)
                → find_key (insert_at m' key value (chain_find (chain_of m' key) key)) k
                  ≡ (if same_key key k then some value else find_key m k))
      inserted m' holds bound =
          Holds-Valid _ _ (insert_at-Holds m' (λ k. find_key m k) holds key value bound)

  missing : (m : HashMap V) (k : List ℕ) → (length m.buckets == 0) ≡ true → find_key m k ≡ none
  unfolding find_key
  missing m k e = rw e refl

  unchanged : (b : Bool) (o : Option V) → o ≡ none → o ≡ (if b then none else o)
  unchanged true o e = e
  unchanged false o e = refl

  -- For a valid map, erase gives a valid map in which the key is missing and every other key has what
  -- it had, whether the key was there or not.
  pub erase_key-Valid :
      (m : HashMap V) (key : List ℕ)
      → Valid m
      → Valid (erase_key m key)
        × ((k : List ℕ)
            → find_key (erase_key m key) k ≡ (if same_key key k then none else find_key m k))
  unfolding erase_key
  erase_key-Valid m key v = elim (Bool-cases (length m.buckets == 0)) [
    | inl e ↦ rw e (v, λ k. unchanged (same_key key k) (find_key m k) (missing m k e))
    | inr e ↦ rw e (
        Holds-Valid (erase_at m key (chain_find (chain_of m key) key)) _
          (erase_at-Holds m _ (Valid-Holds m v (ground (arith, e))) key))
  ]

  -- reserve, and with it a rehash to any capacity up to 2^63, keeps a map valid and what every key has.
  pub reserve_map-Valid :
      (m : HashMap V) (n : ℕ)
      → Valid m
      → n ≤ 2 ^ 63
      → Valid (reserve_map m n) × ((k : List ℕ) → find_key (reserve_map m n) k ≡ find_key m k)
  unfolding reserve_map
  reserve_map-Valid m n v h = elim (Bool-cases (ltb (length m.buckets) n)) [
    | inl e ↦ rw e (Holds-Valid (rehash_to m n) _ (rehash_to-Holds m n v h))
    | inr e ↦ rw e (v, λ k. refl)
  ]
