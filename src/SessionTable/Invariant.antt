-- ===== src/SessionTable/Invariant.antt =====
-- What holds of the table between calls, and what each call does to the records it looks up.
use io_uring_net_engine.Prelude.{
  ℕ, ◌≤◌, ◌<◌, ◌≡◌, ◌≢◌, inl, inr, refl, arith, Bool, Option, none, some, List, [], ◌∷◌, length,
  get_or, ◌==◌, if◌then◌else◌, Bool-cases, Option-cases,
}
use io_uring_net_engine.SessionTable.{
  SessionRecord, SessionTable, capacity, first, modify, is_free, has_id, empty_slot, freed, slot_of,
}
use io_uring_net_engine.SessionTable.Slots.{
  modify_first, record_of, live, AllNe, Distinct, first-some, first-none, changed,
}

abbrev pub Below : ℕ → List SessionRecord → Type 0
Below n [] = Unit {0}
Below n (s ∷ ss) = (s.id < n) × Below n ss

pub record IsValid (t : SessionTable) : Type 0 where
  pub size : length t.slots ≡ capacity
  pub distinct : Distinct t.slots
  -- No slot has an id that is still to be given.
  pub fresh : Below t.next_id t.slots
  pub started : 1 ≤ t.next_id
  pub counted : live t.slots ≡ t.count

pub Below-AllNe : (n : ℕ) (ss : List SessionRecord) → Below n ss → AllNe n ss
Below-AllNe n [] h = tt
Below-AllNe n (s ∷ ss) h = (λ e. omega (arith, e, h.0), Below-AllNe n ss h.1)

pub Below-weaken : (n k : ℕ) (ss : List SessionRecord) → n ≤ k → Below n ss → Below k ss
Below-weaken n k [] le h = tt
Below-weaken n k (s ∷ ss) le h = (omega (arith, h.0), Below-weaken n k ss le h.1)

pub modify_first-Below :
    (n : ℕ) (test : SessionRecord → Bool) (f : SessionRecord → SessionRecord)
    (ss : List SessionRecord)
    → ((s : SessionRecord) → s.id < n → (f s).id < n)
    → Below n ss
    → Below n (modify_first test f ss)
unfolding modify_first
modify_first-Below n test f [] keep h = tt
modify_first-Below n test f (s ∷ ss) keep h = elim (Bool-cases (test s)) [
  | inl hit ↦ rw hit (keep s h.0, h.1)
  | inr miss ↦ rw miss (h.0, modify_first-Below n test f ss keep h.1)
]

pub length-modify_first :
    (test : SessionRecord → Bool) (f : SessionRecord → SessionRecord) (ss : List SessionRecord)
    → length (modify_first test f ss) ≡ length ss
unfolding modify_first
length-modify_first test f [] = refl
length-modify_first test f (s ∷ ss) = ground (arith, length-modify_first test f ss)

pub live_le : (ss : List SessionRecord) → live ss ≤ length ss
unfolding live
live_le [] = omega arith
live_le (s ∷ ss) = ground (arith, live_le ss)

-- A slot is free exactly when not all are in use.
pub free_none : (ss : List SessionRecord) → record_of is_free ss ≡ none → live ss ≡ length ss
unfolding live record_of
free_none [] e = refl
free_none (s ∷ ss) e = ground (arith, free_none ss)

pub free_some :
    (ss : List SessionRecord) (r : SessionRecord)
    → record_of is_free ss ≡ some r
    → live ss < length ss
unfolding live record_of
free_some [] r e = absurd (ground arith)
free_some (s ∷ ss) r e = ground (arith, free_some ss r, live_le ss)

-- The record with an id.
unfoldable pub lookup : SessionTable → ℕ → Option SessionRecord
lookup t id = if id == 0 then none else record_of (has_id id) t.slots

-- What a search for a slot says of the records.
pub data Found (t : SessionTable) (id : ℕ) : Type 0 where
  missing : slot_of t id ≡ none → lookup t id ≡ none → Found t id
  at :
      (i : ℕ) (r : SessionRecord)
      → slot_of t id ≡ some i
      → id ≢ 0
      → record_of (has_id id) t.slots ≡ some r
      → lookup t id ≡ some r
      → get_or t.slots i empty_slot ≡ r
      → ((f : SessionRecord → SessionRecord) → modify f t.slots i ≡ changed id f t.slots)
      → Found t id

pub found : (t : SessionTable) (id : ℕ) → Found t id
unfolding slot_of lookup changed
found t id = elim (Bool-cases (id == 0)) [
  | inl z ↦ missing (rw z refl) (rw z refl)
  | inr nz ↦ elim (Option-cases (first (has_id id) t.slots)) [
    | inl none_found ↦
        missing (rw nz none_found) (rw nz (first-none (has_id id) t.slots none_found))
    | inr (i, hit) ↦
        let here = (first-some (has_id id) freed t.slots i hit).1 in
        at i (get_or t.slots i empty_slot) (rw nz hit) (ground arith) here (rw nz here) refl
          (λ f. (first-some (has_id id) f t.slots i hit).0)
  ]
]
