-- ===== src/Epoll/Output/Evolves.antt =====
-- What every operation on connections that neither adds nor erases one keeps: the bound on what is
-- queued, the lists of doomed and dirty fds, and what is unread; and that it dooms no connection
-- twice.
use io_uring_net_engine.Prelude.{
  ℕ, ◌+◌, ◌≤◌, ◌≡◌, refl, sym, ◌∙◌, ap, ap₂, arith, true, false, List, [], ◌∷◌, ◌++◌, length,
  length-append, append-nil, append_assoc, if◌then◌else◌, Bool-cases, inl, inr,
}
use io_uring_net_engine.Epoll.State.{Bytes, Conn, Server, find_conn, conn_of, edit, member}
use io_uring_net_engine.Epoll.State.Edits.{
  AllConns, AllConns-map, AllConns-edit, active, active-edit, active-close, inputs, inputs-edit,
  member-append, member_last, find_fd,
}
use io_uring_net_engine.Epoll.Output.{send_cap, doom}
use io_uring_net_engine.Epoll.Output.Stream.{AllBufs, Grows, same-Grows, trans-Grows, edit-Grows}

abbrev pub Bounded : Conn → Type 0
Bounded c = length c.out ≤ send_cap

-- A closing connection is on the list of the reap.
abbrev pub Recorded : List ℕ → Conn → Type 0
Recorded doomed c = (if c.closing then member doomed c.fd else true) ≡ true

-- A dirty connection is on the list of the flush pass.
abbrev pub Listed : List ℕ → Conn → Type 0
Listed dirty c = (if c.dirty then member dirty c.fd else true) ≡ true

pub record Sound (s : Server) : Type 0 where
  pub bounded : AllConns Bounded s.conns
  pub recorded : AllConns (Recorded s.doomed) s.conns
  pub listed : AllConns (Listed s.dirty_fds) s.conns
  pub buffers : AllBufs s.tick_buf

abbrev pub potential : Server → ℕ
potential s = length s.doomed + active s.conns

pub record Evolves (s t : Server) : Type 0 where
  pub sound : Sound s → Sound t
  pub shrinks : potential t ≤ potential s
  pub same_inputs : inputs t.conns ≡ inputs s.conns
  pub more : List ℕ
  pub appended : t.doomed ≡ s.doomed ++ more
  pub grows : Grows s t

pub Evolves-refl : (s : Server) → Evolves s s
Evolves-refl s = record {
  sound = λ v. v;
  shrinks = omega arith;
  same_inputs = refl;
  more = [];
  appended = sym (append-nil s.doomed);
  grows = same-Grows s s (λ _. refl);
}

pub Evolves-trans : {s t u : Server} → Evolves s t → Evolves t u → Evolves s u
Evolves-trans {s} {t} {u} a b = record {
  sound = λ v. b.sound (a.sound v);
  shrinks = omega (arith, a.shrinks, b.shrinks);
  same_inputs = b.same_inputs ∙ a.same_inputs;
  more = a.more ++ b.more;
  appended = b.appended ∙ ap (λ l. l ++ b.more) a.appended ∙ append_assoc s.doomed a.more b.more;
  grows = trans-Grows s t u a.grows b.grows;
}

Listed-append : (xs ys : List ℕ) (c : Conn) → Listed xs c → Listed (xs ++ ys) c
Listed-append xs ys c h = ground (arith, h, member-append xs ys c.fd)

Recorded-append : (xs ys : List ℕ) (c : Conn) → Recorded xs c → Recorded (xs ++ ys) c
Recorded-append xs ys c h = ground (arith, h, member-append xs ys c.fd)

-- An edit that leaves the fd, the mark of doom and the unread bytes, keeps the bound, and lists a
-- connection that it makes dirty.
pub edit-Evolves :
    (s : Server) (fd : ℕ) (f : Conn → Conn) (dirty : List ℕ)
    → ((c : Conn) → (f c).fd ≡ c.fd)
    → ((c : Conn) → (f c).closing ≡ c.closing)
    → ((c : Conn) → (f c).in_buf ≡ c.in_buf)
    → ((c : Conn) → (f c).out ≡ c.out)
    → (Bounded (conn_of s fd) → Bounded (f (conn_of s fd)))
    → (Listed (s.dirty_fds ++ dirty) (conn_of s fd)
        → Listed (s.dirty_fds ++ dirty) (f (conn_of s fd)))
    → Evolves s (record (edit s fd f) { dirty_fds = s.dirty_fds ++ dirty })
edit-Evolves s fd f dirty key closing input out bound listed = record {
  sound = λ v. record {
    bounded = AllConns-edit Bounded f s.conns fd bound v.bounded;
    recorded = AllConns-edit (Recorded s.doomed) f s.conns fd (rw (key, closing) λ h. h) v.recorded;
    listed = AllConns-edit (Listed (s.dirty_fds ++ dirty)) f s.conns fd listed (
        AllConns-map (Listed s.dirty_fds) (Listed (s.dirty_fds ++ dirty)) s.conns
          (λ c. Listed-append s.dirty_fds dirty c) v.listed);
    buffers = v.buffers;
  };
  shrinks = omega (arith, active-edit fd f s.conns closing);
  same_inputs = inputs-edit f s.conns fd key input;
  more = [];
  appended = sym (append-nil s.doomed);
  grows = edit-Grows s fd f key out;
}

close-Evolves :
    (s : Server) (fd : ℕ)
    → (conn_of s fd).closing ≡ false
    → Evolves s
        (record (edit s fd (λ c. record c { closing = true })) { doomed = s.doomed ++ fd ∷ [] })
close-Evolves s fd h = record {
  sound = λ v. record {
    bounded =
        AllConns-edit Bounded (λ c. record c { closing = true }) s.conns fd (λ b. b) v.bounded;
    recorded =
        AllConns-edit (Recorded (s.doomed ++ fd ∷ [])) (λ c. record c { closing = true }) s.conns fd
          (λ _. rw (find_fd fd s.conns h) (member_last s.doomed fd))
          (AllConns-map (Recorded s.doomed) (Recorded (s.doomed ++ fd ∷ [])) s.conns
            (λ c. Recorded-append s.doomed (fd ∷ []) c) v.recorded);
    listed =
        AllConns-edit (Listed s.dirty_fds) (λ c. record c { closing = true }) s.conns fd (λ b. b)
          v.listed;
    buffers = v.buffers;
  };
  shrinks = omega (arith, active-close fd s.conns h, length-append s.doomed (fd ∷ []));
  same_inputs = inputs-edit (λ c. record c { closing = true }) s.conns fd (λ _. refl) (λ _. refl);
  more = fd ∷ [];
  appended = refl;
  grows = edit-Grows s fd (λ c. record c { closing = true }) (λ _. refl) (λ _. refl);
}

pub doom-Evolves : (s : Server) (fd : ℕ) → Evolves s (doom s fd)
unfolding doom
doom-Evolves s fd = elim (Bool-cases (conn_of s fd).closing) [
  | inl h ↦ rw (h, doom) (Evolves-refl s)
  | inr h ↦ rw (h, doom) (close-Evolves s fd h)
]

-- A change of anything else.
pub other-Evolves :
    (s t : Server)
    → t.conns ≡ s.conns
    → t.doomed ≡ s.doomed
    → t.dirty_fds ≡ s.dirty_fds
    → t.wire ≡ s.wire
    → (AllBufs s.tick_buf → AllBufs t.tick_buf)
    → Evolves s t
other-Evolves s t cs ds fs ws bufs = record {
  sound = λ v. record {
    bounded = rw cs v.bounded;
    recorded = rw (cs, ds) v.recorded;
    listed = rw (cs, fs) v.listed;
    buffers = bufs v.buffers;
  };
  shrinks = rw (cs, ds) (omega arith);
  same_inputs = ap inputs cs;
  more = [];
  appended = ds ∙ sym (append-nil s.doomed);
  grows = same-Grows s t (λ fd. ap₂ (λ w c. w fd ++ (find_conn c fd).out) ws cs);
}

-- An edit that lists nothing, with bytes that the kernel may take.
pub wired-Evolves :
    (s : Server) (fd : ℕ) (f : Conn → Conn) (wire : ℕ → Bytes)
    → ((c : Conn) → (f c).fd ≡ c.fd)
    → ((c : Conn) → (f c).closing ≡ c.closing)
    → ((c : Conn) → (f c).in_buf ≡ c.in_buf)
    → (Bounded (conn_of s fd) → Bounded (f (conn_of s fd)))
    → (Listed s.dirty_fds (conn_of s fd) → Listed s.dirty_fds (f (conn_of s fd)))
    → Grows s (record (edit s fd f) { wire = wire })
    → Evolves s (record (edit s fd f) { wire = wire })
wired-Evolves s fd f wire key closing input bound listed grows = record {
  sound = λ v. record {
    bounded = AllConns-edit Bounded f s.conns fd bound v.bounded;
    recorded = AllConns-edit (Recorded s.doomed) f s.conns fd (rw (key, closing) λ h. h) v.recorded;
    listed = AllConns-edit (Listed s.dirty_fds) f s.conns fd listed v.listed;
    buffers = v.buffers;
  };
  shrinks = omega (arith, active-edit fd f s.conns closing);
  same_inputs = inputs-edit f s.conns fd key input;
  more = [];
  appended = sym (append-nil s.doomed);
  grows = grows;
}

-- An edit that leaves the queue and lists nothing.
pub quiet-Evolves :
    (s : Server) (fd : ℕ) (f : Conn → Conn)
    → ((c : Conn) → (f c).fd ≡ c.fd)
    → ((c : Conn) → (f c).closing ≡ c.closing)
    → ((c : Conn) → (f c).in_buf ≡ c.in_buf)
    → ((c : Conn) → (f c).out ≡ c.out)
    → (Listed s.dirty_fds (conn_of s fd) → Listed s.dirty_fds (f (conn_of s fd)))
    → Evolves s (edit s fd f)
quiet-Evolves s fd f key closing input out listed =
    wired-Evolves s fd f s.wire key closing input (rw out λ b. b) listed (edit-Grows s fd f key out)
