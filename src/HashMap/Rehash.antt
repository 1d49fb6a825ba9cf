-- ===== src/HashMap/Rehash.antt =====
-- engine-uring/src/sds/cstr_hash_map.h: rehash_to puts every node in its new bucket.
use io_uring_net_engine.Prelude.{
  ℕ, zero, suc, ◌+◌, ◌-◌, ◌/◌, ◌^◌, ◌≤◌, ◌<◌, ◌≡◌, ◌⊎◌, refl, sym, ◌∙◌, ap, arith, true, false,
  Option, none, some, List, [], ◌∷◌, length, length-set, length-replicate, replicate, get_or, leb,
  if◌then◌else◌, Bool-cases, Option-cases, ℕ_discrete, inl, inr,
}
use Prim.Native.Nat.{bit_or}
use native.Mathlib.Nat.{div-le_self}
use io_uring_net_engine.Prelude.Mask.{bit_or_lt}
use io_uring_net_engine.HashMap.{
  same_key, bucket_index, chain_find, place, place_chain, place_all, smear, next_power_of_two,
}
use io_uring_net_engine.HashMap.Chains.{
  same_key-eq, same_key_self, bucket_index_lt, or_else, ChainAt, PlacedFrom, find_in, all_find,
  PlacedFrom-get, PlacedFrom-set, ChainAt-other, all_find_before,
}
use io_uring_net_engine.HashMap.Place.{find_in-place}

-- Buckets that hold what `F` says.
pub record Buckets {V : Type 0} (cap : ℕ) (F : List ℕ → Option V) (bs : List (List (List ℕ × V)))
    : Type 0 where
  pub sized : length bs ≡ cap
  pub placed : PlacedFrom cap 0 bs
  pub finds : (k : List ℕ) → find_in bs k ≡ F k

module _ {V : Type 0} (cap : ℕ) (some_room : 0 < cap) where
  pub place-Buckets :
      (F : List ℕ → Option V) (bs : List (List (List ℕ × V))) (n : List ℕ × V)
      → Buckets cap F bs
      → F n.0 ≡ none
      → Buckets cap (λ k. if same_key n.0 k then some (n.1) else F k) (place bs n)
  unfolding place
  place-Buckets F bs n v fresh = record {
    sized =
        length-set bs (bucket_index (length bs) n.0)
          (n ∷ get_or bs (bucket_index (length bs) n.0) [])
        ∙ v.sized;
    placed =
        PlacedFrom-set cap bs 0 (bucket_index (length bs) n.0)
          (n ∷ get_or bs (bucket_index (length bs) n.0) []) v.placed
          (
            ap (λ l. bucket_index l n.0) (sym v.sized) ∙ omega arith,
            (
              v.finds n.0 ∙ fresh,
              PlacedFrom-get cap bs 0 (bucket_index (length bs) n.0) v.placed
                  (bucket_index_lt (length bs) n.0 here),
            ),
          );
    finds = λ k.
        find_in-place bs n k here ∙ ap (λ o. if same_key n.0 k then some (n.1) else o) (v.finds k);
  }
    where
      here : 0 < length bs
      here = omega (arith, v.sized, some_room)

  change :
      (F G : List ℕ → Option V) (bs : List (List (List ℕ × V)))
      → ((k : List ℕ) → F k ≡ G k)
      → Buckets cap F bs
      → Buckets cap G bs
  change F G bs e v = record { sized = v.sized; placed = v.placed; finds = λ k. v.finds k ∙ e k }

  place_chain-Buckets :
      (c i : ℕ) (ns : List (List ℕ × V)) (F : List ℕ → Option V) (bs : List (List (List ℕ × V)))
      → Buckets cap F bs
      → ChainAt c i ns
      → ((k : List ℕ) → (F k ≡ none) ⊎ (chain_find ns k ≡ none))
      → Buckets cap (λ k. or_else (chain_find ns k) (F k)) (place_chain bs ns)
  unfolding place_chain chain_find
  place_chain-Buckets c i [] F bs v p apart = v
  place_chain-Buckets c i (n ∷ ns) F bs v p apart = change _ _ _ joined (
      place_chain-Buckets c i ns (λ k. if same_key n.0 k then some (n.1) else F k) (place bs n)
        (place-Buckets F bs n v (fresh (apart n.0))) p.1.1
        (λ k. later k (Bool-cases (same_key n.0 k)) (apart k)))
    where
      fresh :
          (F n.0 ≡ none) ⊎ ((if same_key n.0 n.0 then some (n.1) else chain_find ns n.0) ≡ none)
          → F n.0 ≡ none
      fresh (inl e) = e
      fresh (inr e) = absurd (ground (arith, rw (same_key_self n.0) at e))

      again : (k : List ℕ) → same_key n.0 k ≡ true → chain_find ns k ≡ none
      again k e = ap (λ x. chain_find ns x) (sym (same_key-eq n.0 k e)) ∙ p.1.0

      later :
          (k : List ℕ)
          → (same_key n.0 k ≡ true) ⊎ (same_key n.0 k ≡ false)
          → (F k ≡ none) ⊎ ((if same_key n.0 k then some (n.1) else chain_find ns k) ≡ none)
          → ((if same_key n.0 k then some (n.1) else F k) ≡ none) ⊎ (chain_find ns k ≡ none)
      later k (inl e) a = inr (again k e)
      later k (inr e) (inl a) = inl (rw e a)
      later k (inr e) (inr a) = inr (rw e at a)

      joined :
          (k : List ℕ)
          → or_else (chain_find ns k) (if same_key n.0 k then some (n.1) else F k)
            ≡ or_else (if same_key n.0 k then some (n.1) else chain_find ns k) (F k)
      joined k = elim (Bool-cases (same_key n.0 k)) [
        | inl e ↦ rw (e, again k e) refl
        | inr e ↦ rw e refl
      ]

  pub place_all-Buckets :
      (c i : ℕ) (cs : List (List (List ℕ × V))) (F : List ℕ → Option V)
      (bs : List (List (List ℕ × V)))
      → Buckets cap F bs
      → PlacedFrom c i cs
      → ((k : List ℕ) → (F k ≡ none) ⊎ (all_find cs k ≡ none))
      → Buckets cap (λ k. or_else (all_find cs k) (F k)) (place_all bs cs)
  unfolding place_all
  place_all-Buckets c i [] F bs v p apart = v
  place_all-Buckets c i (ns ∷ cs) F bs v p apart =
      change _ _ _ (λ k. joined k (Option-cases (chain_find ns k)))
        (place_all-Buckets c (i + 1) cs (λ k. or_else (chain_find ns k) (F k)) (place_chain bs ns)
          (place_chain-Buckets c i ns F bs v p.0
            (λ k. first (chain_find ns k) (all_find cs k) (F k) (apart k)))
          p.1 (λ k. later k (Option-cases (chain_find ns k)) (apart k)))
    where
      first : (a b f : Option V) → (f ≡ none) ⊎ (or_else a b ≡ none) → (f ≡ none) ⊎ (a ≡ none)
      first a b f (inl e) = inl e
      first none b f (inr e) = inr refl
      first (some x) b f (inr e) = inr e

      only : (k : List ℕ) (a : V) → chain_find ns k ≡ some a → all_find cs k ≡ none
      only k a e = elim (ℕ_discrete (bucket_index c k) i) [
        | yes h ↦ all_find_before c cs (i + 1) k p.1 (omega (arith, h))
        | no ne ↦ absurd (ground (arith, e, ChainAt-other c ns i k p.0 ne))
      ]

      later :
          (k : List ℕ)
          → (chain_find ns k ≡ none) ⊎ ((a : V) × (chain_find ns k ≡ some a))
          → (F k ≡ none) ⊎ (or_else (chain_find ns k) (all_find cs k) ≡ none)
          → (or_else (chain_find ns k) (F k) ≡ none) ⊎ (all_find cs k ≡ none)
      later k (inr (a, e)) h = inr (only k a e)
      later k (inl e) (inl f) = inl (rw e f)
      later k (inl e) (inr f) = inr (rw e at f)

      joined :
          (k : List ℕ)
          → (chain_find ns k ≡ none) ⊎ ((a : V) × (chain_find ns k ≡ some a))
          → or_else (all_find cs k) (or_else (chain_find ns k) (F k))
            ≡ or_else (or_else (chain_find ns k) (all_find cs k)) (F k)
      joined k (inl e) = rw e refl
      joined k (inr (a, e)) = rw (e, only k a e) refl

module _ (V : Type 0) where
  get_or-replicate : (n j : ℕ) → get_or {A = List (List ℕ × V)} (replicate n []) j [] ≡ []
  get_or-replicate zero j = refl
  get_or-replicate (suc n) zero = refl
  get_or-replicate (suc n) (suc j) = get_or-replicate n j

  empty-Placed : (cap n i : ℕ) → PlacedFrom {V = V} cap i (replicate n [])
  empty-Placed cap zero i = tt
  empty-Placed cap (suc n) i = (tt, empty-Placed cap n (i + 1))

  pub empty-Buckets : (cap : ℕ) → Buckets {V = V} cap (λ k. none) (replicate cap [])
  unfolding chain_find
  empty-Buckets cap = record {
    sized = length-replicate cap [];
    placed = empty-Placed cap cap 0;
    finds = λ k.
        ap (λ ns. chain_find ns k)
          (get_or-replicate cap
            (bucket_index (length {A = List (List ℕ × V)} (replicate cap [])) k));
  }

smear_lt : (shifts : List ℕ) (value : ℕ) → value < 2 ^ 63 → smear shifts value < 2 ^ 63
unfolding smear
smear_lt [] value h = h
smear_lt (s ∷ ss) value h =
    smear_lt ss (bit_or value (value / 2 ^ s))
      (bit_or_lt 63 value (value / 2 ^ s) h (omega (arith, h, div-le_self value (2 ^ s))))

pub next_power_of_two_pos : (value : ℕ) → value ≤ 2 ^ 63 → 0 < next_power_of_two value
unfolding next_power_of_two
next_power_of_two_pos value h = elim (Bool-cases (leb value 1)) [
  | inl e ↦ rw e (omega arith)
  | inr e ↦
      rw e
        (omega (arith, smear_lt (1 ∷ 2 ∷ 4 ∷ 8 ∷ 16 ∷ 32 ∷ []) (value - 1) (ground (arith, h, e))))
]
