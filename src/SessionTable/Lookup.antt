-- ===== src/SessionTable/Lookup.antt =====
-- Each operation acts on the records looked up as on the directory.
use mathlib.Core.Option
use io_uring_net_engine.Prelude.{
  ℕ, ◌+◌, ◌-◌, ◌%◌, ◌<◌, ◌≡◌, ◌≢◌, ◌⊎◌, inl, inr, refl, ap, arith, none, some, get_or, ℕ_discrete,
  sym,
}
use io_uring_net_engine.Prelude.Word.{u32_mod}
use io_uring_net_engine.SessionTable.{
  SessionRecord, SessionTable, capacity, has_id, empty_slot, minted, freed, allocate,
  mark_assigning, mark_in_world, remove, validate,
}
use io_uring_net_engine.SessionTable.Slots.{
  record_of, Distinct, taken-lookup, changed, changed-lookup, removed, removed-lookup,
}
use io_uring_net_engine.SessionTable.Directory.{update, is_some, has_generation, assigned, entered}
use io_uring_net_engine.SessionTable.Invariant.{
  IsValid, Below-AllNe, free_some, free_none, lookup, missing, at, found,
}
use io_uring_net_engine.SessionTable.Keeps.{full, room, allocated}

-- A write of the record with an id, when the write keeps ids, and when no record has the id.
changed_refines :
    (t : SessionTable) (id : ℕ) {r : SessionRecord} (f : SessionRecord → SessionRecord)
    → ((s : SessionRecord) → (f s).id ≡ s.id)
    → id ≢ 0
    → record_of (has_id id) t.slots ≡ some r
    → (k : ℕ)
    → lookup (record t { slots = changed id f t.slots }) k
      ≡ update (lookup t) id (Option.map f (lookup t id)) k
unfolding lookup update
changed_refines t id {r} f keep used hit k =
    ground (arith, changed-lookup id f k t.slots r keep hit, hit, used)

-- Nothing changes when there is no record with the id.
missing_refines :
    (t : SessionTable) (id : ℕ)
    → lookup t id ≡ none
    → (k : ℕ) → lookup t k ≡ update (lookup t) id none k
unfolding update
missing_refines t id l k = elim (ℕ_discrete k id) [
  | yes e ↦ ground (arith, l, e)
  | no ne ↦ ground (arith, ne)
]

-- On any table `validate` is true exactly when the record found by the id has the generation
-- given.
pub validate_refines :
    (t : SessionTable) (id g : ℕ) → validate t id g ≡ has_generation (lookup t id) g
unfolding validate has_generation
validate_refines t id g = elim (found t id) [
  | missing e l ↦ rw (e, l, validate) refl
  | at i r e used hit l same write ↦ rw (e, same, l, validate) refl
]

-- On any table `mark_assigning` says whether there is a record with the id, changes its owner and
-- state, and changes no other record.
pub mark_assigning_refines :
    (t : SessionTable) (id worker : ℕ)
    → let (marked, t') = mark_assigning t id worker in
      (marked ≡ is_some (lookup t id))
      × ((k : ℕ)
          → lookup t' k ≡ update (lookup t) id (Option.map (assigned worker) (lookup t id)) k)
unfolding mark_assigning is_some
mark_assigning_refines t id worker = elim (found t id) [
  | missing e l ↦ rw (e, l, mark_assigning) (refl, missing_refines t id l)
  | at i r e used hit l same write ↦
      rw (e, write (assigned worker), mark_assigning)
        (ap is_some (sym l), changed_refines t id (assigned worker) (λ _. refl) used hit)
]

-- On any table `mark_in_world` says whether there is a record with the id, changes its state, and
-- changes no other record.
pub mark_in_world_refines :
    (t : SessionTable) (id : ℕ)
    → let (marked, t') = mark_in_world t id in
      (marked ≡ is_some (lookup t id))
      × ((k : ℕ) → lookup t' k ≡ update (lookup t) id (Option.map entered (lookup t id)) k)
unfolding mark_in_world is_some
mark_in_world_refines t id = elim (found t id) [
  | missing e l ↦ rw (e, l, mark_in_world) (refl, missing_refines t id l)
  | at i r e used hit l same write ↦
      rw (e, write entered, mark_in_world)
        (ap is_some (sym l), changed_refines t id entered (λ _. refl) used hit)
]

removed_refines :
    (t : SessionTable) (id : ℕ)
    → Distinct t.slots
    → (n k : ℕ)
    → lookup (record t { slots = removed id t.slots; count = n }) k ≡ update (lookup t) id none k
unfolding lookup update
removed_refines t id d n k = elim (ℕ_discrete k 0) [
  | yes z ↦ ground (arith, z)
  | no nz ↦ ground (arith, nz, removed-lookup id k t.slots nz d)
]

-- On a well-formed table `remove` says whether there is a record with the id, takes it out, and
-- changes no other record.
pub remove_refines :
    {t : SessionTable} (id : ℕ)
    → IsValid t
    → let (gone, t') = remove t id in
      (gone ≡ is_some (lookup t id)) × ((k : ℕ) → lookup t' k ≡ update (lookup t) id none k)
unfolding remove is_some removed changed
remove_refines {t} id v = elim (found t id) [
  | missing e l ↦ rw (e, l, remove) (refl, missing_refines t id l)
  | at i r e used hit l same write ↦
      rw (e, write freed, remove)
        (ap is_some (sym l), removed_refines t id v.distinct ((t.count + u32_mod - 1) % u32_mod))
]

-- On a well-formed table `allocate` either finds all 256 slots in use, returns null and changes
-- nothing, or finds fewer in use, gives the next id to a new record whose generation is one more
-- than that of its slot's last session, and changes no other record.
pub allocate_refines :
    {t : SessionTable} (account : ℕ)
    → IsValid t
    → let (o, t') = allocate t account in
      ((t.count ≡ capacity) × (o ≡ none) × (t' ≡ t))
      ⊎ ((t.count < capacity)
          × (i : ℕ) × (r : SessionRecord) × (o ≡ some i)
          × (get_or t.slots i empty_slot ≡ r)
          × ((k : ℕ)
              → lookup t' k ≡ update (lookup t) t.next_id (some (minted t.next_id account r)) k))
unfolding lookup update
allocate_refines {t} account v = elim (allocated t account) [
  | full e none_free ↦ inl (
    omega (arith, v.counted, v.size, free_none t.slots none_free),
    ap (λ p. p.0) e,
    ap (λ p. p.1) e,
  )
  | room i r free_slot same e ↦ inr (
    omega (arith, v.counted, v.size, free_some t.slots r free_slot),
    i,
    r,
    ap (λ p. p.0) e,
    same,
    rw e (λ k. elim (ℕ_discrete k 0) [
      | yes z ↦ ground (arith, z, v.started)
      | no nz ↦ ground (
        arith,
        nz,
        taken-lookup t.next_id account k t.slots r nz (Below-AllNe t.next_id t.slots v.fresh)
            free_slot,
      )
    ]),
  )
]
