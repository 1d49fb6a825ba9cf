-- ===== src/SessionTable.antt =====
-- server-uring/src/session_table.h and session_table.cpp, with session_record.h: the acceptor's table
-- of sessions, a fixed array of slots that is searched in order. A pointer to a record is its slot's
-- index. Ids, generations and the count wrap at their width; an `i32` is its 32-bit pattern.
pub mod Slots
pub mod Invariant
pub mod Keeps
pub mod Directory
pub mod Lookup
pub mod History
mod Tests
use io_uring_net_engine.Prelude.{
  ℕ, zero, suc, ◌+◌, ◌-◌, ◌%◌, ◌^◌, Bool, true, false, Option, none, some, List, [], ◌∷◌, get_or,
  replicate, ◌==◌, ◌&&◌, if◌then◌else◌,
}
use io_uring_net_engine.Prelude.Word.{u32_mod, u64_mod}
use mathlib.Core.Option

abbrev pub invalid_session : ℕ
invalid_session = 0

-- -1 as an i32.
abbrev pub no_owner : ℕ
no_owner = 2 ^ 32 - 1

abbrev pub capacity : ℕ
capacity = 256

pub data SessionState : Type 0 where
  accepted assigning in_world disconnecting closed : SessionState

pub record SessionRecord : Type 0 where
  pub id : ℕ
  pub generation : ℕ
  pub account : ℕ
  pub owner_worker : ℕ
  pub state : SessionState

pub record SessionTable : Type 0 where
  pub slots : List SessionRecord
  pub next_id : ℕ
  pub count : ℕ

abbrev pub empty_slot : SessionRecord
empty_slot = record {
  id = invalid_session;
  generation = 0;
  account = 0;
  owner_worker = no_owner;
  state = closed;
}

unfoldable pub new_table : SessionTable
new_table = record { slots = replicate capacity empty_slot; next_id = 1; count = 0 }

-- The first slot that passes the test.
unfoldable pub first : (SessionRecord → Bool) → List SessionRecord → Option ℕ
first test [] = none
first test (s ∷ ss) = if test s then some 0 else Option.map suc (first test ss)

-- Writes through a pointer to slot `i`.
unfoldable pub modify :
    (SessionRecord → SessionRecord) → List SessionRecord → ℕ → List SessionRecord
modify f [] i = []
modify f (s ∷ ss) zero = f s ∷ ss
modify f (s ∷ ss) (suc i) = s ∷ modify f ss i

abbrev pub is_free : SessionRecord → Bool
is_free s = s.id == invalid_session

abbrev pub has_id : ℕ → SessionRecord → Bool
has_id id s = s.id == id

unfoldable pub slot_of : SessionTable → ℕ → Option ℕ
slot_of t id = if id == invalid_session then none else first (has_id id) t.slots

abbrev pub minted : ℕ → ℕ → SessionRecord → SessionRecord
minted id account s = record {
  id = id;
  generation = (s.generation + 1) % u32_mod;
  account = account;
  owner_worker = no_owner;
  state = accepted;
}

unfoldable pub allocate : SessionTable → ℕ → Option ℕ × SessionTable
allocate t account = elim (first is_free t.slots) [
  | some i ↦ (
    some i,
    record {
      slots = modify (minted t.next_id account) t.slots i;
      next_id = (t.next_id + 1) % u64_mod;
      count = (t.count + 1) % u32_mod;
    },
  )
  | none ↦ (none, t)
]

unfoldable pub find : SessionTable → ℕ → Option ℕ
find t id = slot_of t id

unfoldable pub validate : SessionTable → ℕ → ℕ → Bool
validate t id generation = elim (slot_of t id) [
  | some i ↦ (get_or t.slots i empty_slot).generation == generation
  | none ↦ false
]

unfoldable pub mark_assigning : SessionTable → ℕ → ℕ → Bool × SessionTable
mark_assigning t id worker = elim (slot_of t id) [
  | some i ↦ (
    true,
    record t {
      slots = modify (λ s. record s { owner_worker = worker; state = assigning }) t.slots i;
    },
  )
  | none ↦ (false, t)
]

unfoldable pub mark_in_world : SessionTable → ℕ → Bool × SessionTable
mark_in_world t id = elim (slot_of t id) [
  | some i ↦ (true, record t { slots = modify (λ s. record s { state = in_world }) t.slots i })
  | none ↦ (false, t)
]

abbrev pub freed : SessionRecord → SessionRecord
freed s = record s { id = invalid_session; owner_worker = no_owner; state = closed }

unfoldable pub remove : SessionTable → ℕ → Bool × SessionTable
remove t id = elim (slot_of t id) [
  | some i ↦
      (true, record t { slots = modify freed t.slots i; count = (t.count + u32_mod - 1) % u32_mod })
  | none ↦ (false, t)
]
