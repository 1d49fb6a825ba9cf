-- ===== src/Tick/Live.antt =====
-- server-epoll/tick_logic.h: the bitmap of sessions, which session_add and session_remove change.
use io_uring_net_engine.Prelude.{
  ℕ, zero, suc, ◌+◌, ◌-◌, ◌/◌, ◌%◌, ◌^◌, ◌<◌, ◌≡◌, refl, ap, ◌∙◌, arith, false, List, [], ◌∷◌,
  length, get_or, set,
}
use io_uring_net_engine.Prelude.Mask.{pow2_pos}
use native.Mathlib.Nat.{add-div_right}
use io_uring_net_engine.Tick.{Tick, bit, outside, session_add, session_remove}

module _ (xs : List ℕ) where
  get_or-set : (i v : ℕ) → i < length xs → get_or (set xs i v) i 0 ≡ v
  get_or-set i v h = go xs i h
    where
      go : (ys : List ℕ) (j : ℕ) → j < length ys → get_or (set ys j v) j 0 ≡ v
      go [] j l = elim l [ ]
      go (y ∷ ys) zero l = refl
      go (y ∷ ys) (suc j) l = go ys j (omega (arith, l))

set-set : (xs : List ℕ) (i v : ℕ) → set (set xs i v) i (get_or xs i 0) ≡ xs
set-set [] i v = refl
set-set (x ∷ xs) zero v = refl
set-set (x ∷ xs) (suc i) v = ap (λ l. x ∷ l) (set-set xs i v)

flip : (word i : ℕ) → bit word i ≡ 0 → bit (word + 2 ^ i) i ≡ 1
flip word i h =
    ap (λ q. q % 2) (add-div_right word {k = 2 ^ i} (omega (arith, pow2_pos i))) ∙ omega (arith, h)

restored :
    (xs : List ℕ) (i v : ℕ) → set (set xs i (get_or xs i 0 + v)) i (get_or xs i 0 + v - v) ≡ xs
restored xs i v =
    ap (λ w. set (set xs i (get_or xs i 0 + v)) i w) (omega arith)
    ∙ set-set xs i (get_or xs i 0 + v)

-- For an fd that the bitmap covers and whose session is not live, session_remove undoes session_add:
-- the bitmap and the count of live sessions are those from before.
pub session_remove-session_add :
    (g : Tick) (fd : ℕ)
    → outside g fd ≡ false
    → fd / 64 < length g.live
    → bit (get_or g.live (fd / 64) 0) (fd % 64) ≡ 0
    → (session_remove (session_add g fd) fd).live ≡ g.live
      × ((session_remove (session_add g fd) fd).live_n ≡ g.live_n)
unfolding session_add session_remove
session_remove-session_add g fd inside covered clear =
    rw
      (
        inside,
        clear,
        inside,
        get_or-set g.live (fd / 64) (get_or g.live (fd / 64) 0 + 2 ^ (fd % 64)) covered,
        flip (get_or g.live (fd / 64) 0) (fd % 64) clear,
      )
      (restored g.live (fd / 64) (2 ^ (fd % 64)), omega arith)
