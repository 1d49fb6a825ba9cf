-- ===== src/FixedVector/Refine.antt =====
-- The fixed-capacity vector against the list of its live elements.
use io_uring_net_engine.Prelude.{
  ℕ, zero, suc, ◌+◌, ◌≤◌, ◌<◌, ◌≡◌, ◌⊎◌, inl, inr, refl, ◌∙◌, ap, arith, List, [], ◌∷◌, ◌++◌,
  length, length-take, length-set, set, get_or, take, ltb, Bool-cases,
}
use io_uring_net_engine.Prelude.Checked.{ok, trap}
use io_uring_net_engine.Vector.Cells.{take-set}
use io_uring_net_engine.FixedVector.{StaticVector, emplace_back, destroy_all, clear}

pub record IsValid (A : Type 0) (cap : ℕ) (v : StaticVector A) : Type 0 where
  pub storage : length v.slot ≡ cap
  pub fits : v.size ≤ cap

module _ {A : Type 0} where
  abbrev pub live : StaticVector A → List A
  live v = take v.size v.slot

  -- On a valid vector, emplace_back traps exactly when `cap` elements are live, and otherwise puts the
  -- new element behind the live ones. The vector stays valid.
  pub emplace_back_refines :
      (cap : ℕ) (v : StaticVector A) (x : A)
      → IsValid A cap v
      → ((length (live v) ≡ cap) × (emplace_back cap v x ≡ trap))
        ⊎ ((length (live v) < cap)
            × (v' : StaticVector A) × (emplace_back cap v x ≡ ok v')
            × IsValid A cap v'
            × (live v' ≡ live v ++ x ∷ []))
  unfolding emplace_back
  emplace_back_refines cap v x w = elim (Bool-cases (ltb v.size cap)) [
    | inr full ↦
        inl (
          ground (arith, length-take v.size v.slot, w.storage, w.fits),
          rw (full, emplace_back) refl,
        )
    | inl room ↦ inr (
      ground (arith, length-take v.size v.slot, w.storage),
      record { slot = set v.slot v.size x; size = v.size + 1 },
      rw (room, emplace_back) refl,
      record { storage = length-set v.slot v.size x ∙ w.storage; fits = ground arith },
      ap (λ n. take n (set v.slot v.size x)) next
          ∙ take-set x v.slot v.size x (ground (arith, w.storage)),
    )
  ]
    where
      next : v.size + 1 ≡ suc v.size
      next = omega arith

  module _ (d : A) where
    take-suc :
        (xs : List A) (n : ℕ) → n < length xs → take (suc n) xs ≡ take n xs ++ get_or xs n d ∷ []
    take-suc [] n h = absurd (omega arith)
    take-suc (x ∷ xs) zero h = refl
    take-suc (x ∷ xs) (suc n) h = ap (λ l. x ∷ l) (take-suc xs n (omega arith))

    abbrev pub backwards : List A → List A
    backwards [] = []
    backwards (x ∷ xs) = backwards xs ++ x ∷ []

    backwards-snoc : (xs : List A) (x : A) → backwards (xs ++ x ∷ []) ≡ x ∷ backwards xs
    backwards-snoc [] x = refl
    backwards-snoc (y ∷ xs) x = rw (backwards-snoc xs x) refl

    destroy_all-take :
        (xs : List A) (n : ℕ) → n ≤ length xs → destroy_all d xs n ≡ backwards (take n xs)
    unfolding destroy_all
    destroy_all-take xs zero h = refl
    destroy_all-take xs (suc n) h =
        rw (take-suc xs n (omega arith), backwards-snoc (take n xs) (get_or xs n d))
          (ap (λ l. get_or xs n d ∷ l) (destroy_all-take xs n (omega arith)))

    -- On a valid vector, clear destroys every live element once, the last constructed first, and
    -- leaves none live.
    pub clear_refines :
        (cap : ℕ) (v : StaticVector A)
        → IsValid A cap v
        → let (destroyed, v') = clear d v in
          (destroyed ≡ backwards (live v)) × (live v' ≡ []) × IsValid A cap v'
    unfolding clear
    clear_refines cap v w = (
      destroy_all-take v.slot v.size (omega (arith, w.storage, w.fits)),
      refl,
      record { storage = w.storage; fits = omega arith },
    )
