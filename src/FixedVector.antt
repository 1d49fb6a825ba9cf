-- ===== src/FixedVector.antt =====
-- engine-uring/src/sds/static_vector.h: elements constructed one behind another in `N` slots (`cap`
-- here). A call that destroys elements returns them in the order of their destructors; `element` is operator[]. A slot read past
-- the storage is `d`.
pub mod Refine
mod Tests
use io_uring_net_engine.Prelude.{
  ℕ, zero, suc, ◌+◌, ◌-◌, Bool, true, false, List, [], ◌∷◌, set, get_or, take, ltb, if◌then◌else◌,
}
use io_uring_net_engine.Prelude.Checked.{Checked, ok, trap, ◌>>=◌, ◌>>◌, check}

pub record StaticVector (A : Type 0) : Type 0 where
  pub slot : List A
  pub size : ℕ

module _ {A : Type 0} (cap : ℕ) where
  unfoldable pub emplace_back : StaticVector A → A → Checked (StaticVector A)
  emplace_back v x = do
    check (ltb v.size cap)
    ok (record { slot = set v.slot v.size x; size = v.size + 1 })

module _ {A : Type 0} (d : A) where
  unfoldable pub pop_back : StaticVector A → Checked (List A × StaticVector A)
  pop_back v = do
    check (ltb 0 v.size)
    ok (get_or v.slot (v.size - 1) d ∷ [], record v { size = v.size - 1 })

  -- clear's loop on a size, with the elements that it destroys.
  unfoldable pub destroy_all : List A → ℕ → List A
  destroy_all slot zero = []
  destroy_all slot (suc n) = get_or slot n d ∷ destroy_all slot n

  unfoldable pub clear : StaticVector A → List A × StaticVector A
  clear v = (destroy_all v.slot v.size, record v { size = 0 })

  unfoldable pub element : StaticVector A → ℕ → Checked A
  element v i = check (ltb i v.size) >> ok (get_or v.slot i d)
