-- ===== src/Epoll/Output/Keeps.antt =====
-- What an operation that may read input keeps: all that Evolves says but the unread bytes.
use io_uring_net_engine.Prelude.{
  ℕ, ◌≤◌, ◌≡◌, refl, sym, ◌∙◌, ap, arith, true, List, [], ◌∷◌, ◌++◌, append-nil, append_assoc, map,
  ◌==◌, if◌then◌else◌, Bool-cases, inl, inr,
}
use io_uring_net_engine.Epoll.State.{Bytes, Conn, Server, has_conn, edit_conn, edit, member}
use io_uring_net_engine.Epoll.State.Edits.{AllConns-edit, active-edit, inputs}
use io_uring_net_engine.Epoll.Output.Stream.{Grows, trans-Grows, edit-Grows}
use io_uring_net_engine.Epoll.Output.Evolves.{Bounded, Recorded, Listed, Sound, potential, Evolves}

abbrev pub fds : List Conn → List ℕ
fds [] = []
fds (c ∷ cs) = c.fd ∷ fds cs

pub has-fds : (cs : List Conn) (fd : ℕ) → member (fds cs) fd ≡ has_conn cs fd
unfolding member has_conn
has-fds [] fd = refl
has-fds (c ∷ cs) fd = ap (λ b. if c.fd == fd then true else b) (has-fds cs fd)

fds_of_inputs : (cs ds : List Conn) → inputs cs ≡ inputs ds → fds cs ≡ fds ds
fds_of_inputs cs ds e = sym (firsts cs) ∙ ap (map (λ p. p.0)) e ∙ firsts ds
  where
    firsts : (cs : List Conn) → map (λ p. p.0) (inputs cs) ≡ fds cs
    firsts [] = refl
    firsts (c ∷ cs) = ap (λ l. c.fd ∷ l) (firsts cs)

-- The same of an operation that may read input.
pub record Keeps (s t : Server) : Type 0 where
  pub sound : Sound s → Sound t
  pub shrinks : potential t ≤ potential s
  pub same_fds : fds t.conns ≡ fds s.conns
  pub more : List ℕ
  pub appended : t.doomed ≡ s.doomed ++ more
  pub grows : Grows s t

pub Evolves-Keeps : {s t : Server} → Evolves s t → Keeps s t
Evolves-Keeps {s} {t} v = record {
  sound = v.sound;
  shrinks = v.shrinks;
  same_fds = fds_of_inputs t.conns s.conns v.same_inputs;
  more = v.more;
  appended = v.appended;
  grows = v.grows;
}

pub Keeps-trans : {s t u : Server} → Keeps s t → Keeps t u → Keeps s u
Keeps-trans {s} {t} {u} a b = record {
  sound = λ v. b.sound (a.sound v);
  shrinks = omega (arith, a.shrinks, b.shrinks);
  same_fds = b.same_fds ∙ a.same_fds;
  more = a.more ++ b.more;
  appended = b.appended ∙ ap (λ l. l ++ b.more) a.appended ∙ append_assoc s.doomed a.more b.more;
  grows = trans-Grows s t u a.grows b.grows;
}

pub fds-edit :
    (f : Conn → Conn) (cs : List Conn) (fd : ℕ)
    → ((c : Conn) → (f c).fd ≡ c.fd)
    → fds (edit_conn f cs fd) ≡ fds cs
unfolding edit_conn
fds-edit f [] fd k = refl
fds-edit f (c ∷ cs) fd k = elim (Bool-cases (c.fd == fd)) [
  | inl e ↦ rw (e, k) refl
  | inr e ↦ rw e (ap (λ l. c.fd ∷ l) (fds-edit f cs fd k))
]

-- A write to the unread bytes.
pub input-Keeps :
    (s : Server) (fd : ℕ) (f : Bytes → Bytes)
    → Keeps s (edit s fd (λ c. record c { in_buf = f c.in_buf }))
input-Keeps s fd f = record {
  sound = λ v. record {
    bounded =
        AllConns-edit Bounded (λ c. record c { in_buf = f c.in_buf }) s.conns fd (λ b. b) v.bounded;
    recorded =
        AllConns-edit (Recorded s.doomed) (λ c. record c { in_buf = f c.in_buf }) s.conns fd
          (λ b. b) v.recorded;
    listed =
        AllConns-edit (Listed s.dirty_fds) (λ c. record c { in_buf = f c.in_buf }) s.conns fd
          (λ b. b) v.listed;
    buffers = v.buffers;
  };
  shrinks =
      omega (arith, active-edit fd (λ c. record c { in_buf = f c.in_buf }) s.conns (λ _. refl));
  same_fds = fds-edit (λ c. record c { in_buf = f c.in_buf }) s.conns fd (λ _. refl);
  more = [];
  appended = sym (append-nil s.doomed);
  grows = edit-Grows s fd (λ c. record c { in_buf = f c.in_buf }) (λ _. refl) (λ _. refl);
}
