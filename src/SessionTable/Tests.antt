-- ===== src/SessionTable/Tests.antt =====
-- The table at concrete sessions: runs of the code, and each theorem at an input that meets its
-- hypotheses.
use io_uring_net_engine.Prelude.{◌≡◌, refl, arith, true, false, List, [], ◌∷◌}
use io_uring_net_engine.SessionTable.{
  SessionTable, new_table, allocate, mark_assigning, mark_in_world, remove, validate, slot_of,
  first, modify,
}
use io_uring_net_engine.SessionTable.Invariant.{IsValid}
use io_uring_net_engine.SessionTable.Keeps.{new_table-IsValid}
use io_uring_net_engine.SessionTable.History.{
  Call, allocates, assigns, enters, removes, run, step, run-IsValid, removed_for_good,
}

abbrev admitted : List Call
admitted = allocates 7 ∷ assigns 1 3 ∷ enters 1 ∷ []

-- One session in the world, with id 1.
abbrev busy : SessionTable
busy = run new_table admitted

busy-IsValid : IsValid busy
unfolding new_table
busy-IsValid = run-IsValid admitted new_table-IsValid (omega arith)

reuses_the_slot : validate (run busy (removes 1 ∷ allocates 8 ∷ [])) 2 2 ≡ true
unfolding run step new_table allocate mark_assigning mark_in_world remove validate slot_of first
    modify
reuses_the_slot = refl

busy-next_id : busy.next_id ≡ 2
unfolding run step new_table allocate mark_assigning mark_in_world slot_of first modify
busy-next_id = refl

new_table-next_id : new_table.next_id ≡ 1
unfolding new_table
new_table-next_id = refl

run-IsValid_example : IsValid (run new_table admitted)
run-IsValid_example = run-IsValid admitted new_table-IsValid (omega (arith, new_table-next_id))

removed_for_good_example : validate (run (remove busy 1).1 (allocates 8 ∷ [])) 1 1 ≡ false
removed_for_good_example =
    removed_for_good (allocates 8 ∷ []) 1 busy-IsValid (omega (arith, busy-next_id))
      (omega (arith, busy-next_id))
