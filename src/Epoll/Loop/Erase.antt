-- ===== src/Epoll/Loop/Erase.antt =====
-- server-epoll/server.cpp: what erasing one connection does to the fds and to the others.
use io_uring_net_engine.Prelude.{
  ℕ, zero, suc, ◌≤◌, ◌<◌, ◌≡◌, ◌≢◌, refl, ap, arith, true, false, List, [], ◌∷◌, ◌++◌, length,
  get_or, ◌==◌, if◌then◌else◌, Bool-cases, inl, inr,
}
use io_uring_net_engine.Epoll.State.{Conn, has_conn, erase_conn, find_conn, member, remove_fd}
use io_uring_net_engine.Epoll.State.Edits.{active}
use io_uring_net_engine.Epoll.Output.Keeps.{fds}
use io_uring_net_engine.Epoll.Loop.Valid.{Distinct}

pub fds-erase : (cs : List Conn) (fd : ℕ) → fds (erase_conn cs fd) ≡ remove_fd (fds cs) fd
unfolding erase_conn remove_fd
fds-erase [] fd = refl
fds-erase (c ∷ cs) fd = elim (Bool-cases (c.fd == fd)) [
  | inl e ↦ rw e refl
  | inr e ↦ rw e (ap (λ l. c.fd ∷ l) (fds-erase cs fd))
]

-- The fd that is erased is not the one that is found.
pub find-erase :
    (cs : List Conn) (fd k : ℕ)
    → fd ≢ k
    → (has_conn (erase_conn cs fd) k ≡ has_conn cs k)
      × (find_conn (erase_conn cs fd) k ≡ find_conn cs k)
unfolding erase_conn has_conn find_conn
find-erase [] fd k ne = (refl, refl)
find-erase (c ∷ cs) fd k ne = elim (Bool-cases (c.fd == fd)) [
  | inl e ↦ rw e (ground (arith, ne, e), ground (arith, ne, e))
  | inr e ↦ rw e (
    ap (λ b. if c.fd == k then true else b) (find-erase cs fd k ne).0,
    ap (λ d. if c.fd == k then c else d) (find-erase cs fd k ne).1,
  )
]

pub active-erase : (cs : List Conn) (fd : ℕ) → active (erase_conn cs fd) ≤ active cs
unfolding erase_conn active
active-erase [] fd = omega arith
active-erase (c ∷ cs) fd = ground (arith, active-erase cs fd)

module _ (fd : ℕ) where
  pub member-remove_fd_else :
      (xs : List ℕ) (k : ℕ) → member xs k ≡ false → member (remove_fd xs fd) k ≡ false
  unfolding member remove_fd
  member-remove_fd_else [] k h = refl
  member-remove_fd_else (x ∷ xs) k h = ground (arith, h, member-remove_fd_else xs k)

  pub member-remove_fd_self : (xs : List ℕ) → Distinct xs → member (remove_fd xs fd) fd ≡ false
  unfolding member remove_fd
  member-remove_fd_self [] d = refl
  member-remove_fd_self (x ∷ xs) d = elim (Bool-cases (x == fd)) [
    | inl e ↦ rw e (ground (arith, d.0, e))
    | inr e ↦ rw (e, e) (member-remove_fd_self xs d.1)
  ]

  pub Distinct-remove_fd : (xs : List ℕ) → Distinct xs → Distinct (remove_fd xs fd)
  unfolding remove_fd
  Distinct-remove_fd [] d = tt
  Distinct-remove_fd (x ∷ xs) d = elim (Bool-cases (x == fd)) [
    | inl e ↦ rw e d.1
    | inr e ↦ rw e (member-remove_fd_else xs x d.0, Distinct-remove_fd xs d.1)
  ]

  pub length-remove_fd : (xs : List ℕ) → length (remove_fd xs fd) ≤ length xs
  unfolding remove_fd
  length-remove_fd [] = omega arith
  length-remove_fd (x ∷ xs) = ground (arith, length-remove_fd xs)

pub get_or-append : (xs ys : List ℕ) (i : ℕ) → i < length xs → get_or (xs ++ ys) i 0 ≡ get_or xs i 0
get_or-append [] ys i h = elim h [ ]
get_or-append (x ∷ xs) ys zero h = refl
get_or-append (x ∷ xs) ys (suc i) h = get_or-append xs ys i (omega arith)
