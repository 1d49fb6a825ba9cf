-- ===== src/Prelude/At.antt =====
-- A function that is changed at one number, for a map that has a value at every key.
use Prim.Native.Nat.{ℕ}
use mathlib.Core.Path.{◌≡◌, refl, sym, ap, ◌∙◌, fun_ext}
use mathlib.Core.Bool.{Bool, true, false}
use native.Mathlib.Omega.{arith}
use io_uring_net_engine.Prelude.Tests.{◌==◌, if◌then◌else◌}

abbrev pub at : {A : Type 0} → (ℕ → A) → ℕ → A → ℕ → A
at f k v x = if x == k then v else f x

-- An edit in one place.
module _ {A : Type 0} (f : ℕ → A) (k : ℕ) where
  pub at_here : (v : A) (x : ℕ) → (x == k) ≡ true → at f k v x ≡ v
  at_here v x e = rw e refl

  pub at_same : (v : A) → at f k v k ≡ v
  at_same v = at_here v k (ground arith)

  pub at_else : (v : A) (x : ℕ) → (x == k) ≡ false → at f k v x ≡ f x
  at_else v x e = rw e refl

  same_place : (x : ℕ) → (x == k) ≡ true → x ≡ k
  same_place x e = ground arith

  pub at_self : at f k (f k) ≡ f
  at_self = fun_ext (λ x. go x (x == k) refl)
    where
      go : (x : ℕ) (b : Bool) → (x == k) ≡ b → at f k (f k) x ≡ f x
      go x true e = at_here (f k) x e ∙ ap f (sym (same_place x e))
      go x false e = at_else (f k) x e

  pub at_twice : (v w : A) → at (at f k v) k w ≡ at f k w
  at_twice v w = fun_ext (λ x. go x (x == k) refl)
    where
      go : (x : ℕ) (b : Bool) → (x == k) ≡ b → at (at f k v) k w x ≡ at f k w x
      go x true e = rw e refl
      go x false e = rw e refl
