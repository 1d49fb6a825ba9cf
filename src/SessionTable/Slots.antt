-- ===== src/SessionTable/Slots.antt =====
-- Searching the slots in order, and writing to the slot found.
use io_uring_net_engine.Prelude.{
  ℕ, zero, suc, ◌+◌, ◌≡◌, ◌≢◌, ◌⊎◌, inl, inr, refl, arith, Bool, Option, none, some, List, [], ◌∷◌,
  get_or, ◌==◌, if◌then◌else◌, Bool-cases, ℕ_discrete, sym, ◌∙◌,
}
use io_uring_net_engine.SessionTable.{
  SessionRecord, first, modify, is_free, has_id, empty_slot, minted, freed,
}

-- Writes to the first slot that passes the test.
unfoldable pub modify_first :
    (SessionRecord → Bool)
    → (SessionRecord → SessionRecord)
    → List SessionRecord
    → List SessionRecord
modify_first test f [] = []
modify_first test f (s ∷ ss) = if test s then f s ∷ ss else s ∷ modify_first test f ss

-- The first record that passes the test.
unfoldable pub record_of : (SessionRecord → Bool) → List SessionRecord → Option SessionRecord
record_of test [] = none
record_of test (s ∷ ss) = if test s then some s else record_of test ss

-- The slots in use.
unfoldable pub live : List SessionRecord → ℕ
live [] = 0
live (s ∷ ss) = if is_free s then live ss else suc (live ss)

abbrev pub AllNe : ℕ → List SessionRecord → Type 0
AllNe k [] = Unit {0}
AllNe k (s ∷ ss) = (s.id ≢ k) × AllNe k ss

-- No id but 0 stands in two slots.
abbrev pub Distinct : List SessionRecord → Type 0
Distinct [] = Unit {0}
Distinct (s ∷ ss) = ((s.id ≡ 0) ⊎ AllNe s.id ss) × Distinct ss

module _ (test : SessionRecord → Bool) where
  pub first-some :
      (f : SessionRecord → SessionRecord) (ss : List SessionRecord) (i : ℕ)
      → first test ss ≡ some i
      → (modify f ss i ≡ modify_first test f ss)
        × (record_of test ss ≡ some (get_or ss i empty_slot))
  unfolding first modify modify_first record_of
  first-some f [] i e = absurd (ground arith)
  first-some f (s ∷ ss) zero e = ground arith
  first-some f (s ∷ ss) (suc i) e = ground (arith, first-some f ss i)

  pub first-none : (ss : List SessionRecord) → first test ss ≡ none → record_of test ss ≡ none
  unfolding first record_of
  first-none [] e = refl
  first-none (s ∷ ss) e = ground (arith, first-none ss)

-- Ids in use and unused after a write to the first free slot, or to the first with an id.
module _ (k : ℕ) where
  pub AllNe-lookup : (ss : List SessionRecord) → AllNe k ss → record_of (has_id k) ss ≡ none
  unfolding record_of
  AllNe-lookup [] h = refl
  AllNe-lookup (s ∷ ss) h = ground (arith, AllNe-lookup ss h.1)

  AllNe-modify :
      (test : SessionRecord → Bool) (f : SessionRecord → SessionRecord) (ss : List SessionRecord)
      → ((s : SessionRecord) → s.id ≢ k → (f s).id ≢ k)
      → AllNe k ss
      → AllNe k (modify_first test f ss)
  unfolding modify_first
  AllNe-modify test f [] keep h = tt
  AllNe-modify test f (s ∷ ss) keep h = elim (Bool-cases (test s)) [
    | inl hit ↦ rw hit (keep s h.0, h.1)
    | inr miss ↦ rw miss (h.0, AllNe-modify test f ss keep h.1)
  ]

module _ (n account : ℕ) where
  -- The slots after `allocate` has written an unused id into the first free slot.
  unfoldable pub taken : List SessionRecord → List SessionRecord
  taken = modify_first is_free (minted n account)

  pub taken-Distinct : (ss : List SessionRecord) → AllNe n ss → Distinct ss → Distinct (taken ss)
  unfolding taken modify_first
  taken-Distinct [] h d = tt
  taken-Distinct (s ∷ ss) h d = elim (Bool-cases (is_free s)) [
    | inl hit ↦ rw hit (inr h.1, d.1)
    | inr miss ↦ rw miss (
      elim (d.0) [
        | inl zero_id ↦ absurd (ground arith)
        | inr ne ↦ inr (AllNe-modify s.id is_free (minted n account) ss (λ _ _ e. h.0 (sym e)) ne)
      ],
      taken-Distinct ss h.1 d.1,
    )
  ]

  pub taken-live :
      (ss : List SessionRecord) (r : SessionRecord)
      → n ≢ 0
      → record_of is_free ss ≡ some r
      → live (taken ss) ≡ live ss + 1
  unfolding taken modify_first live record_of
  taken-live [] r h e = absurd (ground arith)
  taken-live (s ∷ ss) r h e = ground (arith, taken-live ss r h)

  pub taken-lookup :
      (k : ℕ) (ss : List SessionRecord) (r : SessionRecord)
      → k ≢ 0
      → AllNe n ss
      → record_of is_free ss ≡ some r
      → record_of (has_id k) (taken ss)
        ≡ (if k == n then some (minted n account r) else record_of (has_id k) ss)
  unfolding taken modify_first record_of
  taken-lookup k [] r z h e = absurd (ground arith)
  taken-lookup k (s ∷ ss) r z h e = ground (arith, taken-lookup k ss r z h.1)

module _ (id : ℕ) (f : SessionRecord → SessionRecord) where
  unfoldable pub changed : List SessionRecord → List SessionRecord
  changed = modify_first (has_id id) f

  changed-AllNe :
      (k : ℕ) (ss : List SessionRecord)
      → ((s : SessionRecord) → s.id ≢ k → (f s).id ≢ k)
      → AllNe k ss
      → AllNe k (changed ss)
  unfolding changed
  changed-AllNe k ss keep h = AllNe-modify k (has_id id) f ss keep h

  -- A write that keeps the id.
  pub changed-Distinct :
      (ss : List SessionRecord)
      → ((s : SessionRecord) → (f s).id ≡ s.id)
      → Distinct ss
      → Distinct (changed ss)
  unfolding changed modify_first
  changed-Distinct [] keep d = tt
  changed-Distinct (s ∷ ss) keep d = elim (Bool-cases (has_id id s)) [
    | inl hit ↦ rw (hit, keep s) d
    | inr miss ↦ rw miss (
      elim (d.0) [
        | inl zero_id ↦ inl zero_id
        | inr ne ↦ inr (changed-AllNe s.id ss (λ r h e. h (sym (keep r) ∙ e)) ne)
      ],
      changed-Distinct ss keep d.1,
    )
  ]

  pub changed-live :
      (ss : List SessionRecord)
      → ((s : SessionRecord) → (f s).id ≡ s.id)
      → live (changed ss) ≡ live ss
  unfolding changed modify_first live
  changed-live [] keep = refl
  changed-live (s ∷ ss) keep = ground (arith, changed-live ss keep, keep s)

  pub changed-AllNe_keep :
      (k : ℕ) (ss : List SessionRecord)
      → ((s : SessionRecord) → (f s).id ≡ s.id)
      → AllNe k ss
      → AllNe k (changed ss)
  changed-AllNe_keep k ss keep h = changed-AllNe k ss (λ r ne e. ne (sym (keep r) ∙ e)) h

  pub changed-lookup :
      (k : ℕ) (ss : List SessionRecord) (r : SessionRecord)
      → ((s : SessionRecord) → (f s).id ≡ s.id)
      → record_of (has_id id) ss ≡ some r
      → record_of (has_id k) (changed ss)
        ≡ (if k == id then some (f r) else record_of (has_id k) ss)
  unfolding changed modify_first record_of
  changed-lookup k [] r keep e = absurd (ground arith)
  changed-lookup k (s ∷ ss) r keep e = ground (arith, changed-lookup k ss r keep, keep s)

module _ (id : ℕ) where
  -- The slots after `remove` has freed the one with this id.
  unfoldable pub removed : List SessionRecord → List SessionRecord
  removed = modify_first (has_id id) freed

  pub removed-AllNe : (k : ℕ) (ss : List SessionRecord) → k ≢ 0 → AllNe k ss → AllNe k (removed ss)
  unfolding removed
  removed-AllNe k ss z h = AllNe-modify k (has_id id) freed ss (λ _ _ e. z (sym e)) h

  pub removed-Distinct : (ss : List SessionRecord) → Distinct ss → Distinct (removed ss)
  unfolding removed modify_first
  removed-Distinct [] d = tt
  removed-Distinct (s ∷ ss) d = elim (Bool-cases (has_id id s)) [
    | inl hit ↦ rw hit (inl refl, d.1)
    | inr miss ↦ rw miss (
      elim (ℕ_discrete s.id 0) [
        | yes zero_id ↦ inl zero_id
        | no used ↦ elim (d.0) [
          | inl zero_id ↦ inl zero_id
          | inr ne ↦ inr (removed-AllNe s.id ss used ne)
        ]
      ],
      removed-Distinct ss d.1,
    )
  ]

  pub removed-live :
      (ss : List SessionRecord) (r : SessionRecord)
      → id ≢ 0
      → record_of (has_id id) ss ≡ some r
      → live (removed ss) + 1 ≡ live ss
  unfolding removed modify_first live record_of
  removed-live [] r z e = absurd (ground arith)
  removed-live (s ∷ ss) r z e = ground (arith, removed-live ss r z)

  pub removed-lookup :
      (k : ℕ) (ss : List SessionRecord)
      → k ≢ 0
      → Distinct ss
      → record_of (has_id k) (removed ss) ≡ (if k == id then none else record_of (has_id k) ss)
  unfolding removed modify_first record_of
  removed-lookup k [] z d = ground arith
  removed-lookup k (s ∷ ss) z d =
      ground (arith, removed-lookup k ss z d.1, d.0, AllNe-lookup s.id ss)
