-- ===== src/Epoll/State.antt =====
-- server-epoll/server.cpp: connections, rooms and the other globals. A map is the list of its entries
-- in the order of iteration, which the source does not choose; `g_conns` maps an fd to a connection
-- with that fd, so an entry is the connection.
pub mod Edits
use io_uring_net_engine.Prelude.{
  ℕ, zero, suc, ◌+◌, ◌*◌, Bool, true, false, not, ◌&&◌, Option, none, some, List, [], ◌∷◌, ◌++◌,
  ◌==◌, if◌then◌else◌,
}
use io_uring_net_engine.Tick.{Tick}
pub use io_uring_net_engine.Prelude.At.{at}
use mathlib.Core.Option

abbrev pub Bytes : Type 0
Bytes = List ℕ

abbrev pub same_bytes : Bytes → Bytes → Bool
same_bytes [] [] = true
same_bytes [] (b ∷ bs) = false
same_bytes (a ∷ more) [] = false
same_bytes (a ∷ more) (b ∷ bs) = a == b && same_bytes more bs

abbrev pub is_empty : Bytes → Bool
is_empty [] = true
is_empty (b ∷ bs) = false

-- What send returns: a count, or -1 with EINTR, or -1 with an errno that is not EAGAIN.
pub data Sent : Type 0 where
  accepted : ℕ → Sent
  interrupted : Sent
  failed : Sent

-- What recv returns: bytes, 0 for a shutdown by the peer, or -1 as above.
pub data Received : Type 0 where
  arrived : Bytes → Received
  shut : Received
  interrupted : Received
  failed : Received

pub record Conn : Type 0 where
  pub fd : ℕ
  pub nick : Bytes
  pub room : Bytes
  pub in_buf : Bytes
  pub out : Bytes
  pub armed_write : Bool
  pub closing : Bool
  pub dirty : Bool

pub record Server : Type 0 where
  pub conns : List Conn
  pub rooms : List (Bytes × List ℕ)
  pub doomed : List ℕ
  pub dirty_fds : List ℕ
  pub tick_buf : List (Bytes × Bytes)
  pub tick_frames : ℕ
  pub tick_dropped : ℕ
  pub tick : Tick
  -- Whether the fd kept in reserve is open.
  pub reserve : Bool
  -- The scripts, and what the kernel has taken for each fd.
  pub sends : ℕ → List Sent
  pub recvs : ℕ → List Received
  pub wire : ℕ → Bytes

pub record Config : Type 0 where
  pub batch_flush : Bool
  pub coalesce : Bool
  pub max_conns : ℕ
  -- Whether epoll_ctl MOD of an fd succeeds in a state.
  pub mod_ok : Server → ℕ → Bool

-- conn's initialisers.
abbrev pub fresh_conn : ℕ → Conn
fresh_conn fd = record {
  fd = fd;
  nick = [];
  room = [];
  in_buf = [];
  out = [];
  armed_write = false;
  closing = false;
  dirty = false;
}

-- An fd that is not in the map reads as a connection on which every operation returns at once; no
-- code is called with one.
abbrev pub no_conn : Conn
no_conn = record (fresh_conn 0) { closing = true }

unfoldable pub find_conn : List Conn → ℕ → Conn
find_conn [] fd = no_conn
find_conn (c ∷ cs) fd = if c.fd == fd then c else find_conn cs fd

unfoldable pub has_conn : List Conn → ℕ → Bool
has_conn [] fd = false
has_conn (c ∷ cs) fd = if c.fd == fd then true else has_conn cs fd

unfoldable pub edit_conn : (Conn → Conn) → List Conn → ℕ → List Conn
edit_conn f [] fd = []
edit_conn f (c ∷ cs) fd = if c.fd == fd then f c ∷ cs else c ∷ edit_conn f cs fd

unfoldable pub erase_conn : List Conn → ℕ → List Conn
erase_conn [] fd = []
erase_conn (c ∷ cs) fd = if c.fd == fd then cs else c ∷ erase_conn cs fd

abbrev pub conn_of : Server → ℕ → Conn
conn_of s fd = find_conn s.conns fd

abbrev pub edit : Server → ℕ → (Conn → Conn) → Server
edit s fd f = record s { conns = edit_conn f s.conns fd }

-- Entries under a name: found, written or added in front, and erased.
module _ {A : Type 0} where
  unfoldable pub lookup : List (Bytes × A) → Bytes → Option A
  lookup [] k = none
  lookup (e ∷ es) k = if same_bytes e.0 k then some (e.1) else lookup es k

  unfoldable pub store : List (Bytes × A) → Bytes → A → List (Bytes × A)
  store [] k v = (k, v) ∷ []
  store (e ∷ es) k v = if same_bytes e.0 k then (e.0, v) ∷ es else e ∷ store es k v

  unfoldable pub discard : List (Bytes × A) → Bytes → List (Bytes × A)
  discard [] k = []
  discard (e ∷ es) k = if same_bytes e.0 k then es else e ∷ discard es k

-- A set of fds.
unfoldable pub member : List ℕ → ℕ → Bool
member [] fd = false
member (x ∷ xs) fd = if x == fd then true else member xs fd

unfoldable pub remove_fd : List ℕ → ℕ → List ℕ
remove_fd [] fd = []
remove_fd (x ∷ xs) fd = if x == fd then xs else x ∷ remove_fd xs fd

unfoldable pub add_fd : List ℕ → ℕ → List ℕ
add_fd xs fd = if member xs fd then xs else fd ∷ xs
