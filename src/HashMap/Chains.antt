-- ===== src/HashMap/Chains.antt =====
-- engine-uring/src/sds/cstr_hash_map.h: what nodes in their chains, and chains in their buckets, hold.
use io_uring_net_engine.Prelude.{
  ℕ, zero, suc, ◌+◌, ◌-◌, ◌<◌, ◌≡◌, ◌≢◌, refl, sym, subst, ◌∙◌, ap, ap₂, arith, true, Option, none,
  some, List, [], ◌∷◌, length, get_or, set, Bool-cases, inl, inr,
}
use io_uring_net_engine.Prelude.Mask.{bit_and_le}
use io_uring_net_engine.HashMap.{same_key, hash_func, bucket_index, chain_find}

pub same_key-eq : (a b : List ℕ) → same_key a b ≡ true → a ≡ b
same_key-eq [] [] h = refl
same_key-eq [] (b ∷ bs) h = absurd (ground (arith, h))
same_key-eq (a ∷ more) [] h = absurd (ground (arith, h))
same_key-eq (a ∷ more) (b ∷ bs) h =
    ap₂ (λ x y. x ∷ y) (ground (arith, h)) (same_key-eq more bs (ground (arith, h)))

pub same_key_self : (a : List ℕ) → same_key a a ≡ true
same_key_self [] = refl
same_key_self (b ∷ bs) = ground (arith, same_key_self bs)

pub bucket_index_lt :
    (capacity : ℕ) (key : List ℕ) → 0 < capacity → bucket_index capacity key < capacity
unfolding bucket_index
bucket_index_lt capacity key h = omega (arith, bit_and_le (hash_func key) (capacity - 1), h)

abbrev pub or_else : {A : Type 0} → Option A → Option A → Option A
or_else none b = b
or_else (some a) b = some a

module _ {V : Type 0} where
  -- A chain of bucket `i`: its keys belong there, and no key is there twice.
  abbrev pub ChainAt : ℕ → ℕ → List (List ℕ × V) → Type 0
  ChainAt cap i [] = Unit {0}
  ChainAt cap i (n ∷ ns) =
      (bucket_index cap n.0 ≡ i) × ((chain_find ns n.0 ≡ none) × ChainAt cap i ns)

  -- Buckets from number `i` on.
  abbrev pub PlacedFrom : ℕ → ℕ → List (List (List ℕ × V)) → Type 0
  PlacedFrom cap i [] = Unit {0}
  PlacedFrom cap i (c ∷ cs) = ChainAt cap i c × PlacedFrom cap (i + 1) cs

  abbrev pub find_in : List (List (List ℕ × V)) → List ℕ → Option V
  find_in bs key = chain_find (get_or bs (bucket_index (length bs) key) []) key

  abbrev pub all_find : List (List (List ℕ × V)) → List ℕ → Option V
  all_find [] key = none
  all_find (c ∷ cs) key = or_else (chain_find c key) (all_find cs key)

module _ {V : Type 0} (cap : ℕ) where
  pub PlacedFrom-get :
      (bs : List (List (List ℕ × V))) (i j : ℕ)
      → PlacedFrom cap i bs
      → j < length bs
      → ChainAt cap (i + j) (get_or bs j [])
  PlacedFrom-get [] i j p h = elim h [ ]
  PlacedFrom-get (c ∷ cs) i zero p h = subst (λ x. ChainAt cap x c) (omega arith) p.0
  PlacedFrom-get (c ∷ cs) i (suc j) p h =
      subst (λ x. ChainAt cap x (get_or cs j [])) (omega arith)
        (PlacedFrom-get cs (i + 1) j p.1 (omega (arith, h)))

  pub PlacedFrom-set :
      (bs : List (List (List ℕ × V))) (i j : ℕ) (c : List (List ℕ × V))
      → PlacedFrom cap i bs
      → ChainAt cap (i + j) c
      → PlacedFrom cap i (set bs j c)
  PlacedFrom-set [] i j c p h = tt
  PlacedFrom-set (d ∷ ds) i zero c p h = (subst (λ x. ChainAt cap x c) (omega arith) h, p.1)
  PlacedFrom-set (d ∷ ds) i (suc j) c p h =
      (p.0, PlacedFrom-set ds (i + 1) j c p.1 (subst (λ x. ChainAt cap x c) (omega arith) h))

  -- A key of another bucket is not in the chain.
  pub ChainAt-other :
      (ns : List (List ℕ × V)) (i : ℕ) (key : List ℕ)
      → ChainAt cap i ns
      → bucket_index cap key ≢ i
      → chain_find ns key ≡ none
  unfolding chain_find
  ChainAt-other [] i key p ne = refl
  ChainAt-other (n ∷ ns) i key p ne = elim (Bool-cases (same_key n.0 key)) [
    | inl e ↦ absurd (ne (ap (λ k. bucket_index cap k) (sym (same_key-eq n.0 key e)) ∙ p.0))
    | inr e ↦ rw e (ChainAt-other ns i key p.1.1 ne)
  ]

  pub all_find_before :
      (cs : List (List (List ℕ × V))) (i : ℕ) (key : List ℕ)
      → PlacedFrom cap i cs
      → bucket_index cap key < i
      → all_find cs key ≡ none
  all_find_before [] i key p h = refl
  all_find_before (c ∷ cs) i key p h =
      rw (ChainAt-other c i key p.0 (λ e. omega (arith, h, e)))
        (all_find_before cs (i + 1) key p.1 (omega (arith, h)))

  pub all_find_at :
      (cs : List (List (List ℕ × V))) (i j : ℕ) (key : List ℕ)
      → PlacedFrom cap i cs
      → bucket_index cap key ≡ i + j
      → all_find cs key ≡ chain_find (get_or cs j []) key
  unfolding chain_find
  all_find_at [] i j key p h = refl
  all_find_at (c ∷ cs) i zero key p h =
      rw (all_find_before cs (i + 1) key p.1 (omega (arith, h))) (or_none (chain_find c key))
    where
      or_none : (o : Option V) → or_else o none ≡ o
      or_none none = refl
      or_none (some v) = refl
  all_find_at (c ∷ cs) i (suc j) key p h =
      rw (ChainAt-other c i key p.0 (λ e. omega (arith, h, e)))
        (all_find_at cs (i + 1) j key p.1 (omega (arith, h)))
