-- ===== src/Epoll/Loop/Flush.antt =====
-- server-epoll/server.cpp: flush_dirty, after which no connection is dirty.
use io_uring_net_engine.Prelude.{
  ℕ, zero, suc, ◌≡◌, refl, arith, Bool, true, false, not, List, [], ◌∷◌, drop, ◌==◌, if◌then◌else◌,
  Bool-cases, inl, inr, subst,
}
use io_uring_net_engine.Epoll.State.{
  is_empty, Sent, accepted, Conn, Config, Server, find_conn, edit_conn, conn_of, edit, member,
}
use io_uring_net_engine.Epoll.State.Edits.{AllConns, AllConns-edit, AllConns-map}
use io_uring_net_engine.Epoll.Output.{doom, update_epoll_mask, transmit, flush_loop, flush_send}
use io_uring_net_engine.Epoll.Output.Evolves.{
  Listed, Evolves, Evolves-refl, Evolves-trans, quiet-Evolves,
}
use io_uring_net_engine.Epoll.Output.Keeps.{Evolves-Keeps, fds}
use io_uring_net_engine.Epoll.Output.Steps.{flush_send-Evolves, unless-Evolves}
use io_uring_net_engine.Epoll.Loop.{flush_one, flush_all, flush_dirty}
use io_uring_net_engine.Epoll.Loop.Marked.{flush_all-Settled, flush_all-Flushed, stream-flush_all}
use io_uring_net_engine.Epoll.Output.Settles.{Settled, Flushed}
use io_uring_net_engine.Epoll.Output.Stream.{stream}
use io_uring_net_engine.Epoll.Loop.Valid.{Distinct, Valid, keep-Valid}

abbrev pub Clean : Conn → Type 0
Clean c = c.dirty ≡ false

-- flush_send touches no mark of dirt.
module _ (cfg : Config) (xs : List ℕ) where
  doom-Listed :
      (s : Server) (fd : ℕ) → AllConns (Listed xs) s.conns → AllConns (Listed xs) (doom s fd).conns
  unfolding doom
  doom-Listed s fd h = elim (Bool-cases (conn_of s fd).closing) [
    | inl e ↦ rw (e, doom) h
    | inr e ↦
        rw (e, doom)
          (AllConns-edit (Listed xs) (λ c. record c { closing = true }) s.conns fd (λ l. l) h)
  ]

  mask-Listed :
      (s : Server) (fd : ℕ)
      → AllConns (Listed xs) s.conns
      → AllConns (Listed xs) (update_epoll_mask cfg s fd).conns
  unfolding update_epoll_mask
  mask-Listed s fd h =
      let want = not (is_empty (conn_of s fd).out) in
      elim (Bool-cases
        (if want then (conn_of s fd).armed_write else not (conn_of s fd).armed_write)) [
          | inl e ↦ rw (e, update_epoll_mask) h
          | inr e ↦ elim (Bool-cases (cfg.mod_ok s fd)) [
            | inl o ↦
                rw (e, o, update_epoll_mask)
                  (AllConns-edit (Listed xs) (λ c. record c { armed_write = want }) s.conns fd
                    (λ l. l) h)
            | inr o ↦ rw (e, o, update_epoll_mask) h
          ]
        ]

  choose-Listed :
      (b : Bool) (s t : Server)
      → AllConns (Listed xs) s.conns
      → AllConns (Listed xs) t.conns
      → AllConns (Listed xs) (if b then s else t).conns
  choose-Listed true s t v w = v
  choose-Listed false s t v w = w

  flush_loop-Listed :
      (rs : List Sent) (s : Server) (fd : ℕ)
      → AllConns (Listed xs) s.conns
      → AllConns (Listed xs) (flush_loop cfg rs s fd).conns
  unfolding flush_loop
  flush_loop-Listed [] s fd h = mask-Listed _ fd h
  flush_loop-Listed (accepted zero ∷ rs) s fd h =
      choose-Listed (is_empty (conn_of s fd).out) _ _ (mask-Listed _ fd h) (doom-Listed _ fd h)
  flush_loop-Listed (accepted (suc n) ∷ rs) s fd h =
      choose-Listed (is_empty (conn_of s fd).out) _ _ (mask-Listed _ fd h) (
        flush_loop-Listed rs (transmit s fd (suc n)) fd (
          AllConns-edit (Listed xs) (λ c. record c { out = drop (suc n) c.out }) s.conns fd (λ l. l)
            h))
  flush_loop-Listed (Sent.interrupted ∷ rs) s fd h =
      choose-Listed (is_empty (conn_of s fd).out) _ _ (mask-Listed _ fd h)
        (flush_loop-Listed rs s fd h)
  flush_loop-Listed (Sent.failed ∷ rs) s fd h =
      choose-Listed (is_empty (conn_of s fd).out) _ _ (mask-Listed _ fd h) (doom-Listed _ fd h)

module _ (fd : ℕ) (xs : List ℕ) where
  absent-Listed :
      (cs : List Conn)
      → member (fds cs) fd ≡ false
      → AllConns (Listed (fd ∷ xs)) cs
      → AllConns (Listed xs) cs
  unfolding member
  absent-Listed [] a h = tt
  absent-Listed (c ∷ cs) a h = (ground (arith, a, h.0), absent-Listed cs (ground (arith, a)) h.1)

  cleared-Listed :
      (cs : List Conn)
      → Distinct (fds cs)
      → AllConns (Listed (fd ∷ xs)) cs
      → AllConns (Listed xs) (edit_conn (λ c. record c { dirty = false }) cs fd)
  unfolding edit_conn member
  cleared-Listed [] d h = tt
  cleared-Listed (c ∷ cs) d h = elim (Bool-cases (c.fd == fd)) [
    | inl e ↦ rw e (refl, absent-Listed cs (ground (arith, d.0, e)) h.1)
    | inr e ↦ rw e (ground (arith, h.0, e), cleared-Listed cs d.1 h.1)
  ]

module _ (cfg : Config) where
  flush_one-Evolves : (s : Server) (fd : ℕ) → Evolves s (flush_one cfg s fd)
  unfolding flush_one
  flush_one-Evolves s fd =
      Evolves-trans
        (quiet-Evolves s fd (λ c. record c { dirty = false }) (λ _. refl) (λ _. refl) (λ _. refl)
          (λ _. refl) (λ _. refl))
        (unless-Evolves (conn_of s fd).closing _ _ (flush_send-Evolves cfg _ fd))

  flush_one-Listed :
      (s : Server) (fd : ℕ) (xs : List ℕ)
      → Distinct (fds s.conns)
      → AllConns (Listed (fd ∷ xs)) s.conns
      → AllConns (Listed xs) (flush_one cfg s fd).conns
  unfolding flush_one flush_send
  flush_one-Listed s fd xs d h =
      let clean = edit s fd (λ c. record c { dirty = false }) in
      let cleared = cleared-Listed fd xs s.conns d h in
      choose-Listed cfg xs (conn_of s fd).closing clean (flush_send cfg clean fd) cleared
        (flush_loop-Listed cfg xs (clean.sends fd) clean fd cleared)

  flush_all-Evolves : (xs : List ℕ) (s : Server) → Evolves s (flush_all cfg xs s)
  unfolding flush_all
  flush_all-Evolves [] s = Evolves-refl s
  flush_all-Evolves (x ∷ xs) s =
      Evolves-trans (flush_one-Evolves s x) (flush_all-Evolves xs (flush_one cfg s x))

  flush_all-Clean :
      (xs : List ℕ) (s : Server)
      → Distinct (fds s.conns)
      → AllConns (Listed xs) s.conns
      → AllConns (Listed []) (flush_all cfg xs s).conns
  unfolding flush_all
  flush_all-Clean [] s d h = h
  flush_all-Clean (x ∷ xs) s d h =
      flush_all-Clean xs (flush_one cfg s x) (rw (Evolves-Keeps (flush_one-Evolves s x)).same_fds d)
        (flush_one-Listed s x xs d h)

  none-Listed : (c : Conn) → Listed [] c → Clean c
  unfolding member
  none-Listed c h = ground (arith, h)

  flushed : (s : Server) → Valid cfg s → AllConns (Listed []) (flush_dirty cfg s).conns
  unfolding flush_dirty
  flushed s v = flush_all-Clean s.dirty_fds s v.distinct v.sound.listed

  pub flush_dirty-Valid : (s : Server) → Valid cfg s → Valid cfg (flush_dirty cfg s)
  unfolding flush_dirty
  flush_dirty-Valid s v =
      let w = keep-Valid cfg s _ (Evolves-Keeps (flush_all-Evolves s.dirty_fds s)) v in
      record {
        sound = record {
          bounded = w.sound.bounded;
          recorded = w.sound.recorded;
          listed = flushed s v;
          buffers = w.sound.buffers;
        };
        distinct = w.distinct;
        within = w.within;
        framed = w.framed;
      }

  -- A mark of dirt puts the connection on the list.
  marked-Listed :
      (xs : List ℕ) (cs : List Conn) (fd : ℕ)
      → AllConns (Listed xs) cs
      → (find_conn cs fd).dirty ≡ true
      → member xs fd ≡ true
  unfolding find_conn
  marked-Listed xs [] fd h d = absurd (ground (arith, d))
  marked-Listed xs (c ∷ cs) fd h d = elim (Bool-cases (c.fd == fd)) [
    | inl e ↦
        let is : c.fd ≡ fd = ground (arith, e) in
        subst (λ k. member xs k ≡ true) is (ground (arith, h.0, d, e))
    | inr e ↦ marked-Listed xs cs fd h.1 (rw e at d)
  ]

  -- What the flush pass does from `s` to `t`.
  pub record Pass (s t : Server) : Type 0 where
    pub clean : AllConns Clean t.conns
    pub listed : t.dirty_fds ≡ []
    pub settled : (fd : ℕ) → (conn_of s fd).dirty ≡ true → Settled t fd
    pub reasons : (fd : ℕ) → Flushed s t fd
    pub streams : (fd : ℕ) → stream t fd ≡ stream s fd

  -- In a valid state, flush_dirty flushes every connection that is marked: afterwards it has nothing
  -- queued, or the kernel takes no more from it for now, or it is closing. A connection that was not
  -- closing before is closing only when an error is among the results of send for it. What the kernel has taken for a
  -- connection followed by what is still queued is the same as before, for every connection. None is
  -- marked any more, and the list of the pass is empty.
  pub flush_dirty-Clean : (s : Server) → Valid cfg s → Pass s (flush_dirty cfg s)
  unfolding flush_dirty
  flush_dirty-Clean s v = record {
    clean = AllConns-map (Listed []) Clean _ none-Listed (flushed s v);
    listed = refl;
    settled = λ fd d.
        flush_all-Settled cfg s.dirty_fds s fd
          (marked-Listed s.dirty_fds s.conns fd v.sound.listed d);
    reasons = λ fd. flush_all-reasons fd;
    streams = λ fd. stream-flush_all cfg s.dirty_fds s fd;
  }
    where
      flush_all-reasons : (fd : ℕ) → Flushed s (flush_dirty cfg s) fd
      flush_all-reasons fd =
          let f = flush_all-Flushed cfg s.dirty_fds s fd in
          record { reason = f.reason; later = f.later }
