-- ===== src/SessionTable/Directory.antt =====
-- What the table promises: a directory that maps an id to its record.
use io_uring_net_engine.Prelude.{ℕ, Bool, true, false, Option, none, some, ◌==◌, if◌then◌else◌}
use io_uring_net_engine.SessionTable.{SessionRecord, assigning, in_world}

abbrev pub Directory : Type 0
Directory = ℕ → Option SessionRecord

unfoldable pub update : Directory → ℕ → Option SessionRecord → Directory
update d id o k = if k == id then o else d k

unfoldable pub is_some : Option SessionRecord → Bool
is_some none = false
is_some (some r) = true

unfoldable pub has_generation : Option SessionRecord → ℕ → Bool
has_generation none g = false
has_generation (some r) g = r.generation == g

-- The changes that the marks make to a record.
abbrev pub assigned : ℕ → SessionRecord → SessionRecord
assigned worker s = record s { owner_worker = worker; state = assigning }

abbrev pub entered : SessionRecord → SessionRecord
entered s = record s { state = in_world }
