-- ===== src/SessionTable/Keeps.antt =====
-- Every operation keeps the table well-formed.
use io_uring_net_engine.Prelude.{
  ℕ, zero, suc, ◌+◌, ◌%◌, ◌<◌, ◌≡◌, inl, inr, refl, arith, none, some, get_or, replicate,
  length-replicate, Option-cases, ◌∙◌,
}
use io_uring_net_engine.Prelude.Word.{u32_mod, u64_mod}
use io_uring_net_engine.SessionTable.{
  SessionRecord, SessionTable, assigning, in_world, capacity, first, is_free, has_id, empty_slot,
  minted, freed, new_table, allocate, mark_assigning, mark_in_world, remove,
}
use io_uring_net_engine.SessionTable.Slots.{
  record_of, live, Distinct, first-some, first-none, taken, taken-Distinct, taken-live, changed,
  changed-Distinct, changed-live, removed, removed-Distinct, removed-live,
}
use io_uring_net_engine.SessionTable.Invariant.{
  IsValid, Below, Below-AllNe, Below-weaken, modify_first-Below, length-modify_first, live_le,
  free_some, missing, at, found,
}

empty_slots-Distinct : (n : ℕ) → Distinct (replicate n empty_slot)
empty_slots-Distinct zero = tt
empty_slots-Distinct (suc n) = (inl refl, empty_slots-Distinct n)

empty_slots-Below : (n : ℕ) → Below 1 (replicate n empty_slot)
empty_slots-Below zero = tt
empty_slots-Below (suc n) = (omega arith, empty_slots-Below n)

empty_slots-live : (n : ℕ) → live (replicate n empty_slot) ≡ 0
unfolding live
empty_slots-live zero = refl
empty_slots-live (suc n) = empty_slots-live n

-- The constructor makes a well-formed table.
pub new_table-IsValid : IsValid new_table
unfolding new_table
new_table-IsValid = record {
  size = length-replicate capacity empty_slot;
  distinct = empty_slots-Distinct capacity;
  fresh = empty_slots-Below capacity;
  started = omega arith;
  counted = empty_slots-live capacity;
}

-- What `allocate` does, on both of its branches.
pub data Allocated (t : SessionTable) (account : ℕ) : Type 0 where
  full : allocate t account ≡ (none, t) → record_of is_free t.slots ≡ none → Allocated t account
  room :
      (i : ℕ) (r : SessionRecord)
      → record_of is_free t.slots ≡ some r
      → get_or t.slots i empty_slot ≡ r
      → allocate t account ≡ (
        some i,
        record {
          slots = taken t.next_id account t.slots;
          next_id = (t.next_id + 1) % u64_mod;
          count = (t.count + 1) % u32_mod;
        },
      )
      → Allocated t account

pub allocated : (t : SessionTable) (account : ℕ) → Allocated t account
unfolding allocate taken
allocated t account = elim (Option-cases (first is_free t.slots)) [
  | inl e ↦ full (rw (e, allocate) refl) (first-none is_free t.slots e)
  | inr (i, e) ↦
      let (write, free_slot) = first-some is_free (minted t.next_id account) t.slots i e in
      room i (get_or t.slots i empty_slot) free_slot refl (rw (e, write, allocate) refl)
]

-- `allocate` keeps the table well-formed while ids remain.
pub allocate-IsValid :
    {t : SessionTable} (account : ℕ)
    → IsValid t
    → t.next_id + 1 < u64_mod
    → IsValid (allocate t account).1
unfolding taken
allocate-IsValid {t} account v below = elim (allocated t account) [
  | full e no_room ↦ rw e v
  | room i r free_slot same e ↦ rw e (record {
    size = length-modify_first is_free (minted t.next_id account) t.slots ∙ v.size;
    distinct =
        taken-Distinct t.next_id account t.slots (Below-AllNe t.next_id t.slots v.fresh) v.distinct;
    fresh = rw next (
        modify_first-Below (t.next_id + 1) is_free (minted t.next_id account) t.slots
          (λ _ _. omega arith)
          (Below-weaken t.next_id (t.next_id + 1) t.slots (omega arith) v.fresh));
    started = rw next (omega arith);
    counted = omega (
      arith,
      taken-live t.next_id account t.slots r (omega (arith, v.started)) free_slot,
      v.counted,
      v.size,
      free_some t.slots r free_slot,
    );
  })
]
  where
    next : (t.next_id + 1) % u64_mod ≡ t.next_id + 1
    next = omega arith

-- A write to the record with an id, which keeps the id.
changed-IsValid :
    {t : SessionTable} (id : ℕ) (f : SessionRecord → SessionRecord)
    → ((s : SessionRecord) → (f s).id ≡ s.id)
    → IsValid t
    → IsValid (record t { slots = changed id f t.slots })
unfolding changed
changed-IsValid {t} id f keep v = record {
  size = length-modify_first (has_id id) f t.slots ∙ v.size;
  distinct = changed-Distinct id f t.slots keep v.distinct;
  fresh =
      modify_first-Below t.next_id (has_id id) f t.slots (λ s. rw (keep s) λ below. below) v.fresh;
  started = v.started;
  counted = changed-live id f t.slots keep ∙ v.counted;
}

pub mark_assigning-IsValid :
    {t : SessionTable} (id worker : ℕ) → IsValid t → IsValid (mark_assigning t id worker).1
unfolding mark_assigning
mark_assigning-IsValid {t} id worker v = elim (found t id) [
  | missing e l ↦ rw (e, mark_assigning) v
  | at i r e used hit l same write ↦
      rw (e, mark_assigning, write)
        (changed-IsValid id (λ s. record s { owner_worker = worker; state = assigning }) (λ _. refl)
          v)
]

pub mark_in_world-IsValid : {t : SessionTable} (id : ℕ) → IsValid t → IsValid (mark_in_world t id).1
unfolding mark_in_world
mark_in_world-IsValid {t} id v = elim (found t id) [
  | missing e l ↦ rw (e, mark_in_world) v
  | at i r e used hit l same write ↦
      rw (e, mark_in_world, write)
        (changed-IsValid id (λ s. record s { state = in_world }) (λ _. refl) v)
]

-- `remove` keeps the table well-formed: what it takes from the count, it takes from the slots in use.
pub remove-IsValid : {t : SessionTable} (id : ℕ) → IsValid t → IsValid (remove t id).1
unfolding remove removed changed
remove-IsValid {t} id v = elim (found t id) [
  | missing e l ↦ rw (e, remove) v
  | at i r e used hit l same write ↦
      rw (e, remove, write freed)
        (record {
          size = length-modify_first (has_id id) freed t.slots ∙ v.size;
          distinct = removed-Distinct id t.slots v.distinct;
          fresh = modify_first-Below t.next_id (has_id id) freed t.slots (λ _ _. v.started) v.fresh;
          started = v.started;
          counted =
              omega (arith, removed-live id t.slots r used hit, v.counted, v.size, live_le t.slots);
        })
]
