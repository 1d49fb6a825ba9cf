-- ===== src/HashMap.antt =====
-- engine-uring/src/sds/cstr_hash_map.h: chains of nodes in an array of buckets. A key is the bytes of
-- its string, which the source asks to stay as they are; `size` is a number. A capacity is a power of
-- 2, for which 0.75F of it is exact. Moves, iterators and load_factor are left out.
pub mod Chains
pub mod Place
pub mod Rehash
pub mod Refine
pub mod Calls
mod Tests
use Prim.Native.Nat.{bit_and, bit_or}
use io_uring_net_engine.Prelude.{
  ℕ, zero, suc, ◌+◌, ◌-◌, ◌*◌, ◌/◌, ◌%◌, ◌^◌, Bool, true, false, ◌&&◌, Option, none, some, List, [],
  ◌∷◌, ◌++◌, length, get_or, set, replicate, ltb, leb, ◌==◌, if◌then◌else◌,
}
use io_uring_net_engine.Prelude.Word.{u64_mod}

-- Whether cstr_cmp answers 0: the bytes agree up to the end, a byte 0 that no string has inside.
abbrev pub same_key : List ℕ → List ℕ → Bool
same_key [] [] = true
same_key [] (b ∷ bs) = false
same_key (a ∷ more) [] = false
same_key (a ∷ more) (b ∷ bs) = a == b && same_key more bs

unfoldable pub hash_from : ℕ → List ℕ → ℕ
hash_from hash [] = hash
hash_from hash (b ∷ bs) = hash_from ((hash * 2 ^ 5 + hash + b) % u64_mod) bs

unfoldable pub hash_func : List ℕ → ℕ
hash_func key = hash_from 5381 key

-- The loop of next_power_of_two over its shifts.
unfoldable pub smear : List ℕ → ℕ → ℕ
smear [] value = value
smear (shift ∷ more) value = smear more (bit_or value (value / 2 ^ shift))

unfoldable pub next_power_of_two : ℕ → ℕ
next_power_of_two value =
    if leb value 1 then 1 else (smear (1 ∷ 2 ∷ 4 ∷ 8 ∷ 16 ∷ 32 ∷ []) (value - 1) + 1) % u64_mod

unfoldable pub bucket_index : ℕ → List ℕ → ℕ
bucket_index capacity key = bit_and (hash_func key) (capacity - 1)

module _ {V : Type 0} where
  -- The node of a key in a chain, a new value for it, and the chain without it.
  unfoldable pub chain_find : List (List ℕ × V) → List ℕ → Option V
  chain_find [] key = none
  chain_find (n ∷ ns) key = if same_key n.0 key then some (n.1) else chain_find ns key

  unfoldable pub chain_write : List (List ℕ × V) → List ℕ → V → List (List ℕ × V)
  chain_write [] key value = []
  chain_write (n ∷ ns) key value =
      if same_key n.0 key then (n.0, value) ∷ ns else n ∷ chain_write ns key value

  unfoldable pub chain_erase : List (List ℕ × V) → List ℕ → List (List ℕ × V)
  chain_erase [] key = []
  chain_erase (n ∷ ns) key = if same_key n.0 key then ns else n ∷ chain_erase ns key

  -- A node in front of its chain.
  unfoldable pub place : List (List (List ℕ × V)) → List ℕ × V → List (List (List ℕ × V))
  place buckets n =
      let i = bucket_index (length buckets) n.0 in set buckets i (n ∷ get_or buckets i [])

  unfoldable pub place_chain :
      List (List (List ℕ × V)) → List (List ℕ × V) → List (List (List ℕ × V))
  place_chain buckets [] = buckets
  place_chain buckets (n ∷ ns) = place_chain (place buckets n) ns

  unfoldable pub place_all :
      List (List (List ℕ × V)) → List (List (List ℕ × V)) → List (List (List ℕ × V))
  place_all buckets [] = buckets
  place_all buckets (c ∷ cs) = place_all (place_chain buckets c) cs

pub record HashMap (V : Type 0) : Type 0 where
  pub buckets : List (List (List ℕ × V))
  pub size : ℕ

module _ {V : Type 0} where
  unfoldable pub new_map : ℕ → HashMap V
  new_map capacity = record { buckets = replicate (next_power_of_two capacity) []; size = 0 }

  unfoldable pub rehash_to : HashMap V → ℕ → HashMap V
  rehash_to m new_capacity = record m {
    buckets = place_all (replicate (next_power_of_two new_capacity) []) m.buckets;
  }

  unfoldable pub rehash_if_needed_for_insert : HashMap V → HashMap V
  rehash_if_needed_for_insert m =
      let capacity = length m.buckets in
      if capacity == 0
      then rehash_to m 64
      else if ltb (capacity * 3 / 4) (m.size + 1)
      then rehash_to m (capacity * 2 % u64_mod)
      else m

  unfoldable pub reserve_map : HashMap V → ℕ → HashMap V
  reserve_map m new_capacity =
      if ltb (length m.buckets) new_capacity then rehash_to m new_capacity else m

  -- The chain that a key belongs to.
  abbrev pub chain_of : HashMap V → List ℕ → List (List ℕ × V)
  chain_of m key = get_or m.buckets (bucket_index (length m.buckets) key) []

  unfoldable pub find_key : HashMap V → List ℕ → Option V
  find_key m key = if length m.buckets == 0 then none else chain_find (chain_of m key) key

  unfoldable pub add_node : HashMap V → List ℕ → V → HashMap V
  add_node m key value = record m { buckets = place m.buckets (key, value); size = m.size + 1 }

  -- insert, once there are buckets; the node of the key is there or not.
  unfoldable pub insert_at : HashMap V → List ℕ → V → Option V → HashMap V
  insert_at m key value (some old) = record m {
    buckets =
        set m.buckets (bucket_index (length m.buckets) key)
          (chain_write (chain_of m key) key value);
  }
  insert_at m key value none = add_node (rehash_if_needed_for_insert m) key value

  unfoldable pub insert_key : HashMap V → List ℕ → V → HashMap V
  insert_key m key value =
      let m' = if length m.buckets == 0 then rehash_to m 64 else m in
      insert_at m' key value (chain_find (chain_of m' key) key)

  unfoldable pub erase_at : HashMap V → List ℕ → Option V → HashMap V
  erase_at m key (some old) = record {
    buckets =
        set m.buckets (bucket_index (length m.buckets) key) (chain_erase (chain_of m key) key);
    size = m.size - 1;
  }
  erase_at m key none = m

  unfoldable pub erase_key : HashMap V → List ℕ → HashMap V
  erase_key m key =
      if length m.buckets == 0 then m else erase_at m key (chain_find (chain_of m key) key)

  unfoldable pub clear_map : HashMap V → HashMap V
  clear_map m = record { buckets = replicate (length m.buckets) []; size = 0 }
