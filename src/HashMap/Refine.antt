-- ===== src/HashMap/Refine.antt =====
-- engine-uring/src/sds/cstr_hash_map.h: the map against the function from keys to values that it
-- stands for.
use io_uring_net_engine.Prelude.{
  ℕ, ◌+◌, ◌-◌, ◌*◌, ◌/◌, ◌%◌, ◌^◌, ◌≤◌, ◌<◌, ◌≡◌, ◌≢◌, ◌⊎◌, refl, sym, subst, ◌∙◌, ap, arith, true,
  false, Option, none, some, List, [], ◌∷◌, length, length-set, get_or, set, ltb, ◌==◌,
  if◌then◌else◌, Bool-cases, Option-cases, ℕ_discrete, inl, inr,
}
use io_uring_net_engine.Prelude.Word.{u64_mod}
use io_uring_net_engine.HashMap.{
  HashMap, same_key, bucket_index, chain_find, chain_write, chain_erase, next_power_of_two,
  chain_of, find_key, rehash_to, rehash_if_needed_for_insert, add_node, insert_at, erase_at,
}
use io_uring_net_engine.HashMap.Chains.{
  same_key-eq, bucket_index_lt, or_else, ChainAt, PlacedFrom, find_in, all_find, PlacedFrom-get,
  PlacedFrom-set, all_find_at,
}
use io_uring_net_engine.HashMap.Place.{
  find_in-set, chain_find-chain_write, chain_write-ChainAt, chain_erase-ChainAt,
  chain_find-chain_erase,
}
use io_uring_net_engine.HashMap.Rehash.{
  Buckets, place-Buckets, place_all-Buckets, empty-Buckets, next_power_of_two_pos,
}

module _ {V : Type 0} where
  -- Every node stands in the bucket of its key's hash, once.
  pub record Valid (m : HashMap V) : Type 0 where
    pub placed : PlacedFrom (length m.buckets) 0 m.buckets

  -- A map with buckets that stands for `F`.
  abbrev pub Holds : HashMap V → (List ℕ → Option V) → Type 0
  Holds m F = (0 < length m.buckets) × Buckets (length m.buckets) F m.buckets

  pub Holds-Valid :
      (m : HashMap V) (F : List ℕ → Option V)
      → Holds m F
      → Valid m × ((k : List ℕ) → find_key m k ≡ F k)
  unfolding find_key
  Holds-Valid m F (h, v) = (record { placed = v.placed }, λ k. rw some_there (v.finds k))
    where
      some_there : (length m.buckets == 0) ≡ false
      some_there = ground (arith, h)

  pub Valid-Holds : (m : HashMap V) → Valid m → 0 < length m.buckets → Holds m (λ k. find_key m k)
  unfolding find_key
  Valid-Holds m v h =
      (h, record { sized = refl; placed = v.placed; finds = λ k. rw some_there refl })
    where
      some_there : (length m.buckets == 0) ≡ false
      some_there = ground (arith, h)

  all_find-find_key : (m : HashMap V) (k : List ℕ) → Valid m → all_find m.buckets k ≡ find_key m k
  unfolding find_key
  all_find-find_key m k v = cases m.buckets v.placed
    where
      cases :
          (bs : List (List (List ℕ × V)))
          → PlacedFrom (length bs) 0 bs
          → all_find bs k ≡ (if length bs == 0 then none else find_in bs k)
      cases [] p = refl
      cases (c ∷ cs) p =
          all_find_at (length (c ∷ cs)) (c ∷ cs) 0 (bucket_index (length (c ∷ cs)) k) k p
            (omega arith)
          ∙ sym (ap (λ b. if b then none else find_in (c ∷ cs) k) some_there)
        where
          some_there : (length (c ∷ cs) == 0) ≡ false
          some_there = ground arith

  or_none : (o : Option V) → or_else o none ≡ o
  or_none none = refl
  or_none (some x) = refl

  rehash_to-Buckets :
      (m : HashMap V) (n : ℕ)
      → Valid m
      → n ≤ 2 ^ 63
      → Buckets
          (next_power_of_two n)
          (λ k. or_else (all_find m.buckets k) none)
          (rehash_to m n).buckets
  unfolding rehash_to
  rehash_to-Buckets m n v h =
      place_all-Buckets (next_power_of_two n) (next_power_of_two_pos n h) (length m.buckets) 0
        m.buckets (λ k. none) _ (empty-Buckets V (next_power_of_two n)) v.placed (λ k. inl refl)

  pub length-rehash_to :
      (m : HashMap V) (n : ℕ)
      → Valid m
      → n ≤ 2 ^ 63
      → length (rehash_to m n).buckets ≡ next_power_of_two n
  length-rehash_to m n v h = (rehash_to-Buckets m n v h).sized

  pub rehash_to-Holds :
      (m : HashMap V) (n : ℕ) → Valid m → n ≤ 2 ^ 63 → Holds (rehash_to m n) (λ k. find_key m k)
  rehash_to-Holds m n v h =
      let b = rehash_to-Buckets m n v h in
      (
        subst (λ l. 0 < l) (sym b.sized) (next_power_of_two_pos n h),
        record {
          sized = refl;
          placed = subst (λ l. PlacedFrom l 0 (rehash_to m n).buckets) (sym b.sized) b.placed;
          finds = λ k. b.finds k ∙ or_none (all_find m.buckets k) ∙ all_find-find_key m k v;
        },
      )

  pub as_function :
      (m : HashMap V) (F G : List ℕ → Option V) → ((k : List ℕ) → F k ≡ G k) → Holds m F → Holds m G
  as_function m F G e (h, v) =
      (h, record { sized = v.sized; placed = v.placed; finds = λ k. v.finds k ∙ e k })

  grown-Holds :
      (m : HashMap V) (F : List ℕ → Option V)
      → Holds m F
      → length m.buckets * 2 ≤ 2 ^ 63
      → Holds (rehash_if_needed_for_insert m) F
  unfolding rehash_if_needed_for_insert
  grown-Holds m F holds small =
      rw some_there (elim (Bool-cases (ltb (length m.buckets * 3 / 4) (m.size + 1))) [
        | inl e ↦ rw e (
            as_function (rehash_to m (length m.buckets * 2 % u64_mod)) (λ k. find_key m k) F
              (Holds-Valid m F holds).1
              (rehash_to-Holds m (length m.buckets * 2 % u64_mod) (Holds-Valid m F holds).0
                (omega (arith, small))))
        | inr e ↦ rw e holds
      ])
    where
      some_there : (length m.buckets == 0) ≡ false
      some_there = ground (arith, holds.0)

  -- One chain replaced by one that agrees with `G`, which differs from `F` in that bucket at most.
  edited-Holds :
      (m : HashMap V) (size i : ℕ) (c : List (List ℕ × V)) (F G : List ℕ → Option V)
      → Holds m F
      → i < length m.buckets
      → ChainAt (length m.buckets) i c
      → ((k : List ℕ) → bucket_index (length m.buckets) k ≡ i → chain_find c k ≡ G k)
      → ((k : List ℕ) → bucket_index (length m.buckets) k ≢ i → F k ≡ G k)
      → Holds (record { buckets = set m.buckets i c; size = size }) G
  edited-Holds m size i c F G (h, v) inside p here there = (
    omega (arith, h, length-set m.buckets i c),
    record {
      sized = refl;
      placed =
          subst (λ l. PlacedFrom l 0 (set m.buckets i c)) (sym (length-set m.buckets i c))
            (PlacedFrom-set (length m.buckets) m.buckets 0 i c v.placed
              (subst (λ j. ChainAt (length m.buckets) j c) (omega arith) p));
      finds = λ k.
          find_in-set m.buckets i c k inside
          ∙ agree k (ℕ_discrete (bucket_index (length m.buckets) k) i);
    },
  )
    where
      agree :
          (k : List ℕ)
          → Dec (bucket_index (length m.buckets) k ≡ i)
          → (if bucket_index (length m.buckets) k == i then chain_find c k else find_in m.buckets k)
            ≡ G k
      agree k (yes e) = rw test (here k e)
        where
          test : (bucket_index (length m.buckets) k == i) ≡ true
          test = ground (arith, e)
      agree k (no ne) = rw test (v.finds k ∙ there k ne)
        where
          test : (bucket_index (length m.buckets) k == i) ≡ false
          test = ground (arith, ne)

  -- What a key's own chain says, and what other buckets say.
  module _ (m : HashMap V) (F : List ℕ → Option V) (holds : Holds m F) (key : List ℕ) where
    own :
        (k : List ℕ)
        → bucket_index (length m.buckets) k ≡ bucket_index (length m.buckets) key
        → chain_find (chain_of m key) k ≡ F k
    own k e = ap (λ j. chain_find (get_or m.buckets j []) k) (sym e) ∙ holds.1.finds k

    apart :
        (o : Option V) (k : List ℕ)
        → bucket_index (length m.buckets) k ≢ bucket_index (length m.buckets) key
        → F k ≡ (if same_key key k then o else F k)
    apart o k ne = elim (Bool-cases (same_key key k)) [
      | inl e ↦
          absurd (ne (ap (λ x. bucket_index (length m.buckets) x) (sym (same_key-eq key k e))))
      | inr e ↦ rw e refl
    ]

    own-ChainAt : ChainAt (length m.buckets) (bucket_index (length m.buckets) key) (chain_of m key)
    own-ChainAt =
        subst (λ j. ChainAt (length m.buckets) j (chain_of m key)) (omega arith)
          (PlacedFrom-get (length m.buckets) m.buckets 0 (bucket_index (length m.buckets) key)
            holds.1.placed (bucket_index_lt (length m.buckets) key holds.0))

    pub insert_at-Holds :
        (value : V)
        → length m.buckets * 2 ≤ 2 ^ 63
        → Holds
            (insert_at m key value (chain_find (chain_of m key) key))
            (λ k. if same_key key k then some value else F k)
    unfolding insert_at add_node
    insert_at-Holds value small = cases (Option-cases (chain_find (chain_of m key) key))
      where
        idx : ℕ
        idx = bucket_index (length m.buckets) key

        cases :
            (chain_find (chain_of m key) key ≡ none)
              ⊎ ((a : V) × (chain_find (chain_of m key) key ≡ some a))
            → Holds
                (insert_at m key value (chain_find (chain_of m key) key))
                (λ k. if same_key key k then some value else F k)
        cases (inl e) = rw e (placed_new (grown-Holds m F holds small) (sym (own key refl) ∙ e))
          where
            placed_new :
                Holds (rehash_if_needed_for_insert m) F
                → F key ≡ none
                → Holds
                    (add_node (rehash_if_needed_for_insert m) key value)
                    (λ k. if same_key key k then some value else F k)
            placed_new (h, v) fresh =
                let b =
                  place-Buckets (length (rehash_if_needed_for_insert m).buckets) h F
                    (rehash_if_needed_for_insert m).buckets (key, value) v fresh in
                (
                  subst (λ l. 0 < l) (sym b.sized) h,
                  record {
                    sized = refl;
                    placed =
                        subst
                          (λ l.
                            PlacedFrom l 0
                              (add_node (rehash_if_needed_for_insert m) key value).buckets)
                          (sym b.sized) b.placed;
                    finds = b.finds;
                  },
                )
        cases (inr (a, e)) = rw e (
            edited-Holds m m.size idx (chain_write (chain_of m key) key value) F
              (λ k. if same_key key k then some value else F k) holds
              (bucket_index_lt (length m.buckets) key holds.0)
              (chain_write-ChainAt (length m.buckets) idx (chain_of m key) key value own-ChainAt)
              (λ k s.
                chain_find-chain_write (chain_of m key) key k value a e
                ∙ ap (λ o. if same_key key k then some value else o) (own k s))
              (apart (some value)))

    pub erase_at-Holds :
        Holds
          (erase_at m key (chain_find (chain_of m key) key))
          (λ k. if same_key key k then none else F k)
    unfolding erase_at
    erase_at-Holds = cases (Option-cases (chain_find (chain_of m key) key))
      where
        idx : ℕ
        idx = bucket_index (length m.buckets) key

        nothing :
            chain_find (chain_of m key) key ≡ none
            → (k : List ℕ) → (same_key key k ≡ true) ⊎ (same_key key k ≡ false)
            → F k ≡ (if same_key key k then none else F k)
        nothing e k (inl s) = rw s (ap F (sym (same_key-eq key k s)) ∙ sym (own key refl) ∙ e)
        nothing e k (inr s) = rw s refl

        cases :
            (chain_find (chain_of m key) key ≡ none)
              ⊎ ((a : V) × (chain_find (chain_of m key) key ≡ some a))
            → Holds
                (erase_at m key (chain_find (chain_of m key) key))
                (λ k. if same_key key k then none else F k)
        cases (inl e) =
            rw e (as_function m F _ (λ k. nothing e k (Bool-cases (same_key key k))) holds)
        cases (inr (a, e)) = rw e (
            edited-Holds m (m.size - 1) idx (chain_erase (chain_of m key) key) F
              (λ k. if same_key key k then none else F k) holds
              (bucket_index_lt (length m.buckets) key holds.0)
              (chain_erase-ChainAt (length m.buckets) idx (chain_of m key) key own-ChainAt)
              (λ k s.
                chain_find-chain_erase (length m.buckets) idx (chain_of m key) key k own-ChainAt
                ∙ ap (λ o. if same_key key k then none else o) (own k s))
              (apart none))
