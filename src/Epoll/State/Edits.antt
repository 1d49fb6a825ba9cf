-- ===== src/Epoll/State/Edits.antt =====
-- What an edit of one connection does to the others, and to what holds of all.
use io_uring_net_engine.Prelude.{
  ℕ, suc, ◌+◌, ◌≤◌, ◌≡◌, ◌≢◌, refl, ap, arith, true, false, List, [], ◌∷◌, ◌++◌, length, ◌==◌,
  if◌then◌else◌, Bool-cases, inl, inr,
}
use io_uring_net_engine.Epoll.State.{
  Bytes, is_empty, Conn, no_conn, find_conn, has_conn, edit_conn, erase_conn, member,
}

abbrev pub AllConns : (Conn → Type 0) → List Conn → Type 0
AllConns P [] = Unit {0}
AllConns P (c ∷ cs) = P c × AllConns P cs

module _ (P : Conn → Type 0) where
  pub AllConns-map :
      (Q : Conn → Type 0) (cs : List Conn)
      → ((c : Conn) → P c → Q c)
      → AllConns P cs
      → AllConns Q cs
  AllConns-map Q [] f h = tt
  AllConns-map Q (c ∷ cs) f h = (f c h.0, AllConns-map Q cs f h.1)

  pub AllConns-edit :
      (f : Conn → Conn) (cs : List Conn) (fd : ℕ)
      → (P (find_conn cs fd) → P (f (find_conn cs fd)))
      → AllConns P cs
      → AllConns P (edit_conn f cs fd)
  unfolding find_conn edit_conn
  AllConns-edit f [] fd k h = tt
  AllConns-edit f (c ∷ cs) fd k h = elim (Bool-cases (c.fd == fd)) [
    | inl e ↦ rw e ((rw e at k) h.0, h.1)
    | inr e ↦ rw e (h.0, AllConns-edit f cs fd (rw e at k) h.1)
  ]

  pub find-AllConns : (cs : List Conn) (fd : ℕ) → P no_conn → AllConns P cs → P (find_conn cs fd)
  unfolding find_conn
  find-AllConns [] fd d h = d
  find-AllConns (c ∷ cs) fd d h = elim (Bool-cases (c.fd == fd)) [
    | inl e ↦ rw e h.0
    | inr e ↦ rw e (find-AllConns cs fd d h.1)
  ]

  pub AllConns-erase : (cs : List Conn) (fd : ℕ) → AllConns P cs → AllConns P (erase_conn cs fd)
  unfolding erase_conn
  AllConns-erase [] fd h = tt
  AllConns-erase (c ∷ cs) fd h = elim (Bool-cases (c.fd == fd)) [
    | inl e ↦ rw e h.1
    | inr e ↦ rw e (h.0, AllConns-erase cs fd h.1)
  ]

-- The connections that are not closing.
unfoldable pub active : List Conn → ℕ
active [] = 0
active (c ∷ cs) = if c.closing then active cs else suc (active cs)

pub active_le : (cs : List Conn) → active cs ≤ length cs
unfolding active
active_le [] = omega arith
active_le (c ∷ cs) = ground (arith, active_le cs)

module _ (fd : ℕ) where
  pub active-edit :
      (f : Conn → Conn) (cs : List Conn)
      → ((c : Conn) → (f c).closing ≡ c.closing)
      → active (edit_conn f cs fd) ≡ active cs
  unfolding active edit_conn
  active-edit f [] k = refl
  active-edit f (c ∷ cs) k = ground (arith, active-edit f cs k, k c)

  pub active-close :
      (cs : List Conn)
      → (find_conn cs fd).closing ≡ false
      → active (edit_conn (λ c. record c { closing = true }) cs fd) + 1 ≡ active cs
  unfolding active edit_conn find_conn
  active-close [] k = absurd (ground arith)
  active-close (c ∷ cs) k = ground (arith, active-close cs)

  -- A connection that is not closing is in the map.
  pub find_fd : (cs : List Conn) → (find_conn cs fd).closing ≡ false → (find_conn cs fd).fd ≡ fd
  unfolding find_conn
  find_fd [] h = absurd (ground arith)
  find_fd (c ∷ cs) h = ground (arith, find_fd cs)

  -- So is one with bytes to send.
  pub find_waiting :
      (cs : List Conn) → is_empty (find_conn cs fd).out ≡ false → (find_conn cs fd).fd ≡ fd
  unfolding find_conn
  find_waiting [] h = absurd (ground arith)
  find_waiting (c ∷ cs) h = ground (arith, find_waiting cs)

  pub has_open : (cs : List Conn) → (find_conn cs fd).closing ≡ false → has_conn cs fd ≡ true
  unfolding find_conn has_conn
  has_open [] h = absurd (ground arith)
  has_open (c ∷ cs) h = ground (arith, has_open cs)

  pub has_waiting :
      (cs : List Conn) → is_empty (find_conn cs fd).out ≡ false → has_conn cs fd ≡ true
  unfolding find_conn has_conn
  has_waiting [] h = absurd (ground arith)
  has_waiting (c ∷ cs) h = ground (arith, has_waiting cs)

  pub find-edit :
      (f : Conn → Conn) (cs : List Conn)
      → ((c : Conn) → (f c).fd ≡ c.fd)
      → has_conn cs fd ≡ true
      → find_conn (edit_conn f cs fd) fd ≡ f (find_conn cs fd)
  unfolding find_conn edit_conn has_conn
  find-edit f [] k h = absurd (ground arith)
  find-edit f (c ∷ cs) k h = elim (Bool-cases (c.fd == fd)) [
    | inl e ↦ rw (e, k, e) refl
    | inr e ↦ rw (e, e) (find-edit f cs k (rw e at h))
  ]

  pub has_edit :
      (f : Conn → Conn) (cs : List Conn)
      → ((c : Conn) → (f c).fd ≡ c.fd)
      → has_conn (edit_conn f cs fd) fd ≡ has_conn cs fd
  unfolding edit_conn has_conn
  has_edit f [] k = refl
  has_edit f (c ∷ cs) k = ground (arith, has_edit f cs k, k c)

  pub find-edit_else :
      (f : Conn → Conn) (cs : List Conn) (k : ℕ)
      → ((c : Conn) → (f c).fd ≡ c.fd)
      → k ≢ fd
      → find_conn (edit_conn f cs fd) k ≡ find_conn cs k
  unfolding find_conn edit_conn
  find-edit_else f [] k same ne = refl
  find-edit_else f (c ∷ cs) k same ne = ground (arith, find-edit_else f cs k same ne, same c)

pub out-edit :
    (f : Conn → Conn) (cs : List Conn) (fd k : ℕ)
    → ((c : Conn) → (f c).fd ≡ c.fd)
    → ((c : Conn) → (f c).out ≡ c.out)
    → (find_conn (edit_conn f cs fd) k).out ≡ (find_conn cs k).out
unfolding find_conn edit_conn
out-edit f [] fd k key o = refl
out-edit f (c ∷ cs) fd k key o = ground (arith, out-edit f cs fd k key o, key c, o c)

pub edit-agree :
    (f g : Conn → Conn) (cs : List Conn) (fd : ℕ)
    → f (find_conn cs fd) ≡ g (find_conn cs fd)
    → edit_conn f cs fd ≡ edit_conn g cs fd
unfolding find_conn edit_conn
edit-agree f g [] fd h = refl
edit-agree f g (c ∷ cs) fd h = elim (Bool-cases (c.fd == fd)) [
  | inl e ↦ rw e (ap (λ d. d ∷ cs) (rw e at h))
  | inr e ↦ rw e (ap (λ l. c ∷ l) (edit-agree f g cs fd (rw e at h)))
]

-- The fds and unread bytes of all connections.
abbrev pub inputs : List Conn → List (ℕ × Bytes)
inputs [] = []
inputs (c ∷ cs) = (c.fd, c.in_buf) ∷ inputs cs

-- The unread bytes of one connection are among those of all.
abbrev pub input_of : List (ℕ × Bytes) → ℕ → Bytes
input_of [] fd = []
input_of (p ∷ ps) fd = if p.0 == fd then p.1 else input_of ps fd

pub find-inputs : (cs : List Conn) (fd : ℕ) → (find_conn cs fd).in_buf ≡ input_of (inputs cs) fd
unfolding find_conn
find-inputs [] fd = refl
find-inputs (c ∷ cs) fd = elim (Bool-cases (c.fd == fd)) [
  | inl e ↦ rw e refl
  | inr e ↦ rw e (find-inputs cs fd)
]

pub inputs-edit :
    (f : Conn → Conn) (cs : List Conn) (fd : ℕ)
    → ((c : Conn) → (f c).fd ≡ c.fd)
    → ((c : Conn) → (f c).in_buf ≡ c.in_buf)
    → inputs (edit_conn f cs fd) ≡ inputs cs
unfolding edit_conn
inputs-edit f [] fd k b = refl
inputs-edit f (c ∷ cs) fd k b = elim (Bool-cases (c.fd == fd)) [
  | inl e ↦ rw (e, k, b) refl
  | inr e ↦ rw e (ap (λ l. (c.fd, c.in_buf) ∷ l) (inputs-edit f cs fd k b))
]

pub member-append : (xs ys : List ℕ) (k : ℕ) → member xs k ≡ true → member (xs ++ ys) k ≡ true
unfolding member
member-append [] ys k h = absurd (ground arith)
member-append (x ∷ xs) ys k h = ground (arith, member-append xs ys k)

pub member_last : (xs : List ℕ) (k : ℕ) → member (xs ++ k ∷ []) k ≡ true
unfolding member
member_last [] k = ground arith
member_last (x ∷ xs) k = ground (arith, member_last xs k)
