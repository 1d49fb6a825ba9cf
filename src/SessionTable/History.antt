-- ===== src/SessionTable/History.antt =====
-- Histories of calls on the table. An id is given once: a message that names a removed session is
-- refused for good.
use mathlib.Core.Option
use io_uring_net_engine.Prelude.{
  ℕ, suc, ◌+◌, ◌≤◌, ◌<◌, ◌≡◌, inl, inr, refl, ap, arith, false, Option, none, List, [], ◌∷◌,
  ℕ_discrete, ◌∙◌,
}
use io_uring_net_engine.Prelude.Word.{u64_mod}
use io_uring_net_engine.SessionTable.{
  SessionRecord, SessionTable, allocate, mark_assigning, mark_in_world, remove, validate,
}
use io_uring_net_engine.SessionTable.Directory.{update, has_generation, assigned, entered}
use io_uring_net_engine.SessionTable.Invariant.{IsValid, lookup}
use io_uring_net_engine.SessionTable.Keeps.{
  allocate-IsValid, mark_assigning-IsValid, mark_in_world-IsValid, remove-IsValid, full, room,
  allocated,
}
use io_uring_net_engine.SessionTable.Lookup.{
  validate_refines, mark_assigning_refines, mark_in_world_refines, remove_refines, allocate_refines,
}

pub data Call : Type 0 where
  allocates : ℕ → Call
  assigns : ℕ → ℕ → Call
  enters : ℕ → Call
  removes : ℕ → Call

unfoldable pub step : SessionTable → Call → SessionTable
step t (allocates account) = (allocate t account).1
step t (assigns id worker) = (mark_assigning t id worker).1
step t (enters id) = (mark_in_world t id).1
step t (removes id) = (remove t id).1

unfoldable pub run : SessionTable → List Call → SessionTable
run t [] = t
run t (c ∷ cs) = run (step t c) cs

-- How many ids the calls can use up.
abbrev pub allocations : List Call → ℕ
allocations [] = 0
allocations (allocates account ∷ cs) = suc (allocations cs)
allocations (assigns id worker ∷ cs) = allocations cs
allocations (enters id ∷ cs) = allocations cs
allocations (removes id ∷ cs) = allocations cs

-- An id that was given, and that no session has any more.
abbrev pub Spent : SessionTable → ℕ → Type 0
Spent t id = (lookup t id ≡ none) × (id < t.next_id)

next_id-allocate :
    (t : SessionTable) (account : ℕ)
    → t.next_id + 1 < u64_mod
    → (t.next_id ≤ (allocate t account).1.next_id)
      × ((allocate t account).1.next_id ≤ t.next_id + 1)
next_id-allocate t account b = elim (allocated t account) [
  | full e none_free ↦ rw e (omega arith, omega arith)
  | room i r free_slot same e ↦ rw e (omega arith, omega arith)
]

next_id-assign :
    (t : SessionTable) (id worker : ℕ) → (mark_assigning t id worker).1.next_id ≡ t.next_id
unfolding mark_assigning
next_id-assign t id worker = ground arith

next_id-enter : (t : SessionTable) (id : ℕ) → (mark_in_world t id).1.next_id ≡ t.next_id
unfolding mark_in_world
next_id-enter t id = ground arith

next_id-remove : (t : SessionTable) (id : ℕ) → (remove t id).1.next_id ≡ t.next_id
unfolding remove
next_id-remove t id = ground arith

-- The ids that the next call can use up.
abbrev cost : Call → ℕ
cost (allocates account) = 1
cost (assigns id worker) = 0
cost (enters id) = 0
cost (removes id) = 0

cost_cons : (c : Call) (cs : List Call) → allocations (c ∷ cs) ≡ cost c + allocations cs
cost_cons (allocates account) cs = omega arith
cost_cons (assigns id worker) cs = omega arith
cost_cons (enters id) cs = omega arith
cost_cons (removes id) cs = omega arith

step-IsValid :
    {t : SessionTable} (c : Call) → IsValid t → t.next_id + cost c < u64_mod → IsValid (step t c)
unfolding step
step-IsValid (allocates account) v b = allocate-IsValid account v b
step-IsValid (assigns id worker) v b = mark_assigning-IsValid id worker v
step-IsValid (enters id) v b = mark_in_world-IsValid id v
step-IsValid (removes id) v b = remove-IsValid id v

next_id-step :
    (t : SessionTable) (c : Call)
    → t.next_id + cost c < u64_mod
    → (t.next_id ≤ (step t c).next_id) × ((step t c).next_id ≤ t.next_id + cost c)
unfolding step
next_id-step t (allocates account) b = next_id-allocate t account b
next_id-step t (assigns id worker) b = omega (arith, next_id-assign t id worker)
next_id-step t (enters id) b = omega (arith, next_id-enter t id)
next_id-step t (removes id) b = omega (arith, next_id-remove t id)

update-none :
    (t : SessionTable) (id k : ℕ) (f : Option SessionRecord → Option SessionRecord)
    → lookup t k ≡ none
    → f none ≡ none
    → update (lookup t) id (f (lookup t id)) k ≡ none
unfolding update
update-none t id k f l e = elim (ℕ_discrete k id) [
  | yes same ↦ ground (arith, l, same, e)
  | no other ↦ ground (arith, l, other)
]

step-missing :
    {t : SessionTable} (c : Call) {k : ℕ} → IsValid t → Spent t k → lookup (step t c) k ≡ none
unfolding step update
step-missing {t} (allocates account) {k} v h = elim (allocate_refines account v) [
  | inl (_, _, same) ↦ rw same h.0
  | inr (_, i, r, _, _, looked_up) ↦ looked_up k ∙ ground (arith, h.0, h.1)
]
step-missing {t} (assigns id worker) {k} v h =
    (mark_assigning_refines t id worker).1 k
    ∙ update-none t id k (Option.map (assigned worker)) h.0 refl
step-missing {t} (enters id) {k} v h =
    (mark_in_world_refines t id).1 k ∙ update-none t id k (Option.map entered) h.0 refl
step-missing {t} (removes id) {k} v h =
    (remove_refines id v).1 k ∙ update-none t id k (λ _. none) h.0 refl

-- A well-formed table stays so under any history of calls that leaves ids to give: ids in use are
-- distinct and below the next one, and the count is the number of slots in use.
pub run-IsValid :
    (cs : List Call) {t : SessionTable}
    → IsValid t
    → t.next_id + allocations cs < u64_mod
    → IsValid (run t cs)
unfolding run
run-IsValid [] v b = v
run-IsValid (c ∷ cs) {t} v b =
    let fits : t.next_id + cost c < u64_mod = omega (arith, cost_cons c cs) in
    run-IsValid cs (step-IsValid c v fits) (omega (arith, cost_cons c cs, next_id-step t c fits))

run-Spent :
    (cs : List Call) {t : SessionTable} {k : ℕ}
    → IsValid t
    → t.next_id + allocations cs < u64_mod
    → Spent t k
    → lookup (run t cs) k ≡ none
unfolding run
run-Spent [] v b h = h.0
run-Spent (c ∷ cs) {t} {k} v b h =
    let fits : t.next_id + cost c < u64_mod = omega (arith, cost_cons c cs) in
    let grows = next_id-step t c fits in
    run-Spent cs (step-IsValid c v fits) (omega (arith, cost_cons c cs, grows))
      (step-missing c v h, omega (arith, grows, h.1))

-- On a well-formed table, once a session that had been given an id has been removed, no calls
-- that follow, while ids remain, make a message that names it pass `validate`, whatever
-- generation it carries: ids are not given twice.
pub removed_for_good :
    {t : SessionTable} {id : ℕ} (cs : List Call) (g : ℕ)
    → IsValid t
    → id < t.next_id
    → t.next_id + allocations cs < u64_mod
    → validate (run (remove t id).1 cs) id g ≡ false
unfolding has_generation update
removed_for_good {t} {id} cs g v known b =
    let kept = next_id-remove t id in
    validate_refines (run (remove t id).1 cs) id g
    ∙ ap (λ o. has_generation o g)
        (run-Spent cs (remove-IsValid id v) (omega (arith, kept))
          ((remove_refines id v).1 id ∙ ground arith, omega (arith, kept)))
