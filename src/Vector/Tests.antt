-- ===== src/Vector/Tests.antt =====
-- A vector of three numbers, full: runs of the code, and each theorem at an input that meets its
-- hypotheses.
use io_uring_net_engine.Prelude.{ℕ, ◌≡◌, refl, arith, Option, none, some, List, [], ◌∷◌, replicate}
use io_uring_net_engine.Prelude.Memory.{copy}
use io_uring_net_engine.Vector.{
  MallocVector, contents, reserve, make_room, push_back, pop_back, resize, clear, erase, insert,
  shift_up, shift_down,
}
use io_uring_net_engine.Vector.Refine.{IsValid}

abbrev three : MallocVector ℕ
three = record { storage = 1 ∷ 2 ∷ 3 ∷ []; size = 3; capacity = 3 }

three-IsValid : IsValid ℕ three
three-IsValid = record { full_storage = refl; fits = omega arith }

abbrev six : Option (List ℕ)
six = some (replicate 6 0)

grows : contents (push_back three 4 six) ≡ 1 ∷ 2 ∷ 3 ∷ 4 ∷ []
unfolding push_back make_room reserve copy
grows = refl

inserts : contents (insert 0 three 1 9 six).1 ≡ 1 ∷ 9 ∷ 2 ∷ 3 ∷ []
unfolding insert make_room reserve copy shift_up
inserts = refl

erases : contents (erase 0 three 0).1 ≡ 2 ∷ 3 ∷ []
unfolding erase shift_down
erases = refl

shrinks : contents (pop_back (resize three 2 none)) ≡ 1 ∷ []
unfolding pop_back resize
shrinks = refl

empties : contents (clear three) ≡ []
unfolding clear
empties = refl
