-- ===== src/FixedVector/Tests.antt =====
-- Three slots with two live elements: runs of the code, and each theorem at an input that meets its
-- hypotheses.
use io_uring_net_engine.Prelude.{ℕ, ◌≡◌, refl, arith, [], ◌∷◌}
use io_uring_net_engine.Prelude.Checked.{ok, trap}
use io_uring_net_engine.FixedVector.{StaticVector, pop_back, clear, element, destroy_all}
use io_uring_net_engine.FixedVector.Refine.{IsValid}

abbrev two : StaticVector ℕ
two = record { slot = 5 ∷ 6 ∷ 0 ∷ []; size = 2 }

two-IsValid : IsValid ℕ 3 two
two-IsValid = record { storage = refl; fits = omega arith }

pops : pop_back 0 two ≡ ok (6 ∷ [], record two { size = 1 })
unfolding pop_back
pops = refl

out_of_range : element 0 two 2 ≡ trap
unfolding element
out_of_range = refl

clears : (clear 0 two).0 ≡ 6 ∷ 5 ∷ []
unfolding clear destroy_all
clears = refl
