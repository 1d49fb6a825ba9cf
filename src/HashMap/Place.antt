-- ===== src/HashMap/Place.antt =====
-- engine-uring/src/sds/cstr_hash_map.h: one chain written, and nodes put in their buckets.
use io_uring_net_engine.Prelude.{
  ℕ, zero, suc, ◌<◌, ◌≡◌, ◌≢◌, ◌⊎◌, refl, sym, ◌∙◌, ap, arith, Bool, true, false, none, some, List,
  [], ◌∷◌, length, length-set, get_or, set, ◌==◌, if◌then◌else◌, Bool-cases, ℕ_discrete, inl, inr,
}
use io_uring_net_engine.HashMap.{
  same_key, bucket_index, chain_find, chain_write, chain_erase, place,
}
use io_uring_net_engine.HashMap.Chains.{
  same_key-eq, same_key_self, bucket_index_lt, ChainAt, find_in,
}

module _ {A : Type 0} where
  get_or-set_self : (xs : List A) (i : ℕ) (v d : A) → i < length xs → get_or (set xs i v) i d ≡ v
  get_or-set_self [] i v d h = elim h [ ]
  get_or-set_self (x ∷ xs) zero v d h = refl
  get_or-set_self (x ∷ xs) (suc i) v d h = get_or-set_self xs i v d (omega (arith, h))

  get_or-set_ne :
      (xs : List A) (i j : ℕ) (v d : A) → j ≢ i → get_or (set xs i v) j d ≡ get_or xs j d
  get_or-set_ne [] i j v d ne = refl
  get_or-set_ne (x ∷ xs) zero zero v d ne = absurd (ne refl)
  get_or-set_ne (x ∷ xs) zero (suc j) v d ne = refl
  get_or-set_ne (x ∷ xs) (suc i) zero v d ne = refl
  get_or-set_ne (x ∷ xs) (suc i) (suc j) v d ne = get_or-set_ne xs i j v d (λ e. ne (ap suc e))

module _ {V : Type 0} where
  pub find_in-set :
      (bs : List (List (List ℕ × V))) (i : ℕ) (c : List (List ℕ × V)) (key : List ℕ)
      → i < length bs
      → find_in (set bs i c) key
        ≡ (if bucket_index (length bs) key == i then chain_find c key else find_in bs key)
  find_in-set bs i c key h =
      ap (λ l. chain_find (get_or (set bs i c) (bucket_index l key) []) key) (length-set bs i c)
      ∙ cases (ℕ_discrete (bucket_index (length bs) key) i)
    where
      cases :
          Dec (bucket_index (length bs) key ≡ i)
          → chain_find (get_or (set bs i c) (bucket_index (length bs) key) []) key
            ≡ (if bucket_index (length bs) key == i then chain_find c key else find_in bs key)
      cases (yes e) =
          ap (λ j. chain_find (get_or (set bs i c) j []) key) e
          ∙ ap (λ d. chain_find d key) (get_or-set_self bs i c [] h)
          ∙ sym (ap (λ b. if b then chain_find c key else find_in bs key) (same e))
        where
          same : bucket_index (length bs) key ≡ i → (bucket_index (length bs) key == i) ≡ true
          same e = ground (arith, e)
      cases (no ne) =
          ap (λ d. chain_find d key) (get_or-set_ne bs i (bucket_index (length bs) key) c [] ne)
          ∙ sym (ap (λ b. if b then chain_find c key else find_in bs key) (other ne))
        where
          other : bucket_index (length bs) key ≢ i → (bucket_index (length bs) key == i) ≡ false
          other ne = ground (arith, ne)

  pub chain_find-chain_write :
      (ns : List (List ℕ × V)) (key k : List ℕ) (value old : V)
      → chain_find ns key ≡ some old
      → chain_find (chain_write ns key value) k
        ≡ (if same_key key k then some value else chain_find ns k)
  unfolding chain_find chain_write
  chain_find-chain_write [] key k value old h = absurd (ground (arith, h))
  chain_find-chain_write (n ∷ ns) key k value old h = elim (Bool-cases (same_key n.0 key)) [
    | inl e ↦ rw (e, same_key-eq n.0 key e) (ifs (same_key key k))
    | inr e ↦ rw e (elim (Bool-cases (same_key n.0 k)) [
      | inl f ↦ rw f (first f e)
      | inr f ↦ rw f (chain_find-chain_write ns key k value old (rw e at h))
    ])
  ]
    where
      ifs :
          (b : Bool)
          → (if b then some value else chain_find ns k)
            ≡ (if b then some value else if b then some (n.1) else chain_find ns k)
      ifs true = refl
      ifs false = refl

      first :
          same_key n.0 k ≡ true
          → same_key n.0 key ≡ false
          → some (n.1) ≡ (if same_key key k then some value else some (n.1))
      first f e = elim (Bool-cases (same_key key k)) [
        | inl g ↦ absurd (
            ground (
              arith,
              e,
              ap (λ x. same_key x key) (same_key-eq n.0 k f ∙ sym (same_key-eq key k g)),
              same_key_self key,
            ))
        | inr g ↦ rw g refl
      ]

  chain_write-none :
      (ns : List (List ℕ × V)) (key k : List ℕ) (value : V)
      → chain_find ns k ≡ none
      → chain_find (chain_write ns key value) k ≡ none
  unfolding chain_find chain_write
  chain_write-none [] key k value h = refl
  chain_write-none (n ∷ ns) key k value h = elim (Bool-cases (same_key n.0 k)) [
    | inl f ↦ absurd (ground (arith, rw f at h))
    | inr f ↦ elim (Bool-cases (same_key n.0 key)) [
      | inl e ↦ rw (e, f) (rw f at h)
      | inr e ↦ rw (e, f) (chain_write-none ns key k value (rw f at h))
    ]
  ]

  pub chain_write-ChainAt :
      (cap i : ℕ) (ns : List (List ℕ × V)) (key : List ℕ) (value : V)
      → ChainAt cap i ns
      → ChainAt cap i (chain_write ns key value)
  unfolding chain_write
  chain_write-ChainAt cap i [] key value p = tt
  chain_write-ChainAt cap i (n ∷ ns) key value p = elim (Bool-cases (same_key n.0 key)) [
    | inl e ↦ rw e p
    | inr e ↦ rw e (
      p.0,
      (chain_write-none ns key n.0 value p.1.0, chain_write-ChainAt cap i ns key value p.1.1),
    )
  ]

  chain_erase-none :
      (ns : List (List ℕ × V)) (key k : List ℕ)
      → chain_find ns k ≡ none
      → chain_find (chain_erase ns key) k ≡ none
  unfolding chain_find chain_erase
  chain_erase-none [] key k h = refl
  chain_erase-none (n ∷ ns) key k h = elim (Bool-cases (same_key n.0 k)) [
    | inl f ↦ absurd (ground (arith, rw f at h))
    | inr f ↦ elim (Bool-cases (same_key n.0 key)) [
      | inl e ↦ rw e (rw f at h)
      | inr e ↦ rw (e, f) (chain_erase-none ns key k (rw f at h))
    ]
  ]

  pub chain_erase-ChainAt :
      (cap i : ℕ) (ns : List (List ℕ × V)) (key : List ℕ)
      → ChainAt cap i ns
      → ChainAt cap i (chain_erase ns key)
  unfolding chain_erase
  chain_erase-ChainAt cap i [] key p = tt
  chain_erase-ChainAt cap i (n ∷ ns) key p = elim (Bool-cases (same_key n.0 key)) [
    | inl e ↦ rw e p.1.1
    | inr e ↦
        rw e (p.0, (chain_erase-none ns key n.0 p.1.0, chain_erase-ChainAt cap i ns key p.1.1))
  ]

  pub chain_find-chain_erase :
      (cap i : ℕ) (ns : List (List ℕ × V)) (key k : List ℕ)
      → ChainAt cap i ns
      → chain_find (chain_erase ns key) k ≡ (if same_key key k then none else chain_find ns k)
  unfolding chain_find chain_erase
  chain_find-chain_erase cap i [] key k p = elim (Bool-cases (same_key key k)) [
    | inl e ↦ rw e refl
    | inr e ↦ rw e refl
  ]
  chain_find-chain_erase cap i (n ∷ ns) key k p = elim (Bool-cases (same_key n.0 key)) [
    | inl e ↦ rw (e, sym (same_key-eq n.0 key e)) (gone (Bool-cases (same_key n.0 k)))
    | inr e ↦ rw e (elim (Bool-cases (same_key n.0 k)) [
      | inl f ↦ rw f (stays e f)
      | inr f ↦ rw f (chain_find-chain_erase cap i ns key k p.1.1)
    ])
  ]
    where
      gone :
          (same_key n.0 k ≡ true) ⊎ (same_key n.0 k ≡ false)
          → chain_find ns k ≡ (
              if same_key n.0 k
              then none
              else if same_key n.0 k
              then some (n.1)
              else chain_find ns k)
      gone (inl f) = rw (f, sym (same_key-eq n.0 k f)) p.1.0
      gone (inr f) = rw f refl

      stays :
          same_key n.0 key ≡ false
          → same_key n.0 k ≡ true
          → some (n.1) ≡ (if same_key key k then none else some (n.1))
      stays e f = elim (Bool-cases (same_key key k)) [
        | inl g ↦ absurd (
            ground (
              arith,
              e,
              ap (λ x. same_key x key) (same_key-eq n.0 k f ∙ sym (same_key-eq key k g)),
              same_key_self key,
            ))
        | inr g ↦ rw g refl
      ]

  -- One node more.
  pub find_in-place :
      (bs : List (List (List ℕ × V))) (n : List ℕ × V) (key : List ℕ)
      → 0 < length bs
      → find_in (place bs n) key ≡ (if same_key n.0 key then some (n.1) else find_in bs key)
  unfolding place chain_find
  find_in-place bs n key h =
      find_in-set bs i (n ∷ get_or bs i []) key (bucket_index_lt (length bs) n.0 h)
      ∙ cases (ℕ_discrete (bucket_index (length bs) key) i) (Bool-cases (same_key n.0 key))
    where
      i : ℕ
      i = bucket_index (length bs) n.0

      cases :
          Dec (bucket_index (length bs) key ≡ i)
          → (same_key n.0 key ≡ true) ⊎ (same_key n.0 key ≡ false)
          → (if bucket_index (length bs) key == i
              then (if same_key n.0 key then some (n.1) else chain_find (get_or bs i []) key)
              else find_in bs key)
            ≡ (if same_key n.0 key then some (n.1) else find_in bs key)
      cases (yes e) (inl f) = rw (f, test) refl
        where
          test : (bucket_index (length bs) key == i) ≡ true
          test = ground (arith, e)
      cases (yes e) (inr f) = rw (f, test) (ap (λ j. chain_find (get_or bs j []) key) (sym e))
        where
          test : (bucket_index (length bs) key == i) ≡ true
          test = ground (arith, e)
      cases (no ne) (inl f) =
          absurd (ne (ap (λ k. bucket_index (length bs) k) (sym (same_key-eq n.0 key f))))
      cases (no ne) (inr f) = rw (f, test) refl
        where
          test : (bucket_index (length bs) key == i) ≡ false
          test = ground (arith, ne)
