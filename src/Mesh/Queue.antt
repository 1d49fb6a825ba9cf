-- ===== src/Mesh/Queue.antt =====
-- What the mesh promises: a queue of whole messages, oldest first, with room for so many bytes.
use io_uring_net_engine.Prelude.{
  ℕ, ◌+◌, Bool, true, false, Option, none, some, List, [], ◌∷◌, ◌++◌, length, ltb, if◌then◌else◌,
}

pub record Message : Type 0 where
  pub type : ℕ
  pub body : List ℕ

abbrev pub Queue : Type 0
Queue = List Message

-- The bytes that a message takes: a header of 4 and its body.
abbrev pub weight : Queue → ℕ
weight [] = 0
weight (m ∷ ms) = 4 + length m.body + weight ms

unfoldable pub push : ℕ → Queue → Message → Bool × Queue
push cap q m = if ltb cap (weight q + weight (m ∷ [])) then (false, q) else (true, q ++ m ∷ [])

unfoldable pub pop : Queue → Option Message × Queue
pop [] = (none, [])
pop (m ∷ ms) = (some m, ms)
