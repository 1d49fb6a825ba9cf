-- ===== src/Bench/Socket/Slab.antt =====
-- client-bench/src/netutil.cpp: the receive slab.
use io_uring_net_engine.Prelude.{
  ℕ, ◌+◌, ◌*◌, ◌≤◌, ◌≡◌, ◌≢◌, ◌⊎◌, arith, some, ltb, Bool-cases, inl, inr,
}
use io_uring_net_engine.Bench.Conn.{rx_cap}
use io_uring_net_engine.Bench.Socket.{rx_slab_ptr}

-- The slots of the slab lie within it, and two fds' slots have no byte in common.
pub rx_slab_ptr-Apart :
    (slots a b at_a at_b : ℕ)
    → a ≢ b
    → rx_slab_ptr slots a ≡ some at_a
    → rx_slab_ptr slots b ≡ some at_b
    → (at_a + rx_cap ≤ slots * rx_cap) × ((at_a + rx_cap ≤ at_b) ⊎ (at_b + rx_cap ≤ at_a))
unfolding rx_slab_ptr rx_cap
rx_slab_ptr-Apart slots a b at_a at_b ne p q = elim (Bool-cases (ltb a slots)) [
  | inl x ↦ elim (Bool-cases (ltb b slots)) [
    | inl y ↦ ground (arith, ne, p, q, x, y)
    | inr y ↦ ground (arith, q, y)
  ]
  | inr x ↦ ground (arith, p, x)
]
