-- ===== src/Epoll/Output/Flush.antt =====
-- server-epoll/server.cpp: flush_send. It moves bytes from a queue to the kernel and arms EPOLLOUT.
use io_uring_net_engine.Prelude.{
  ℕ, zero, suc, ◌≡◌, ◌⊎◌, refl, sym, subst, ◌∙◌, ap, arith, Bool, true, false, not, List, [], ◌∷◌,
  ◌++◌, drop, if◌then◌else◌, Bool-cases, inl, inr,
}
use io_uring_net_engine.Epoll.State.{
  is_empty, Sent, accepted, Conn, Config, Server, has_conn, conn_of, edit,
}
use io_uring_net_engine.Epoll.State.Edits.{find-edit, out-edit, has_waiting, has_edit}
use io_uring_net_engine.Epoll.Output.{doom, update_epoll_mask, transmit, flush_loop, flush_send}
use io_uring_net_engine.Epoll.Output.Stream.{stream, move_stream}

-- Closing, or with EPOLLOUT armed exactly when bytes wait.
abbrev pub Armed : Conn → Type 0
Armed c = (c.closing ≡ true) ⊎ (c.armed_write ≡ not (is_empty c.out))

module _ (cfg : Config) where
  -- The part of a state that a stream is read from, after an edit that leaves the queues.
  pub kept_stream :
      (s : Server) (fd : ℕ) (f : Conn → Conn) (k : ℕ)
      → ((c : Conn) → (f c).fd ≡ c.fd)
      → ((c : Conn) → (f c).out ≡ c.out)
      → stream (edit s fd f) k ≡ stream s k
  kept_stream s fd f k key o = ap (λ b. s.wire k ++ b) (out-edit f s.conns fd k key o)

  stream-doom : (s : Server) (fd k : ℕ) → stream (doom s fd) k ≡ stream s k
  unfolding doom
  stream-doom s fd k = elim (Bool-cases (conn_of s fd).closing) [
    | inl e ↦ rw (e, doom) refl
    | inr e ↦
        rw (e, doom) (kept_stream s fd (λ c. record c { closing = true }) k (λ _. refl) (λ _. refl))
  ]

  mask_stream : (s : Server) (fd k : ℕ) → stream (update_epoll_mask cfg s fd) k ≡ stream s k
  unfolding update_epoll_mask
  mask_stream s fd k =
      let want = not (is_empty (conn_of s fd).out) in
      elim (Bool-cases
        (if want then (conn_of s fd).armed_write else not (conn_of s fd).armed_write)) [
          | inl e ↦ rw (e, update_epoll_mask) refl
          | inr e ↦ elim (Bool-cases (cfg.mod_ok s fd)) [
            | inl o ↦
                rw (e, o, update_epoll_mask)
                  (kept_stream s fd (λ c. record c { armed_write = want }) k (λ _. refl)
                    (λ _. refl))
            | inr o ↦ rw (e, o, update_epoll_mask) refl
          ]
        ]

  guard_stream :
      (b : Bool) (s t u : Server) (k : ℕ)
      → stream t k ≡ stream s k
      → (b ≡ false → stream u k ≡ stream s k)
      → stream (if b then t else u) k ≡ stream s k
  guard_stream true s t u k a c = a
  guard_stream false s t u k a c = c refl

  stream-flush_loop :
      (rs : List Sent) (s : Server) (fd k : ℕ) → stream (flush_loop cfg rs s fd) k ≡ stream s k
  unfolding flush_loop
  stream-flush_loop [] s fd k = mask_stream _ fd k
  stream-flush_loop (accepted zero ∷ rs) s fd k =
      guard_stream (is_empty (conn_of s fd).out) s _ _ k (mask_stream _ fd k)
        (λ _. stream-doom _ fd k)
  stream-flush_loop (accepted (suc n) ∷ rs) s fd k =
      guard_stream (is_empty (conn_of s fd).out) s _ _ k (mask_stream _ fd k) (λ h.
        stream-flush_loop rs (transmit s fd (suc n)) fd k
        ∙ move_stream s fd (suc n) (has_waiting fd s.conns h) k)
  stream-flush_loop (Sent.interrupted ∷ rs) s fd k =
      guard_stream (is_empty (conn_of s fd).out) s _ _ k (mask_stream _ fd k)
        (λ _. stream-flush_loop rs s fd k)
  stream-flush_loop (Sent.failed ∷ rs) s fd k =
      guard_stream (is_empty (conn_of s fd).out) s _ _ k (mask_stream _ fd k)
        (λ _. stream-doom _ fd k)

  -- Whatever send returns, flush_send loses, repeats and reorders no byte: what the kernel has taken
  -- for a connection followed by what is still queued is the same as before, for every connection.
  pub stream-flush_send : (s : Server) (fd k : ℕ) → stream (flush_send cfg s fd) k ≡ stream s k
  unfolding flush_send
  stream-flush_send s fd k = stream-flush_loop (s.sends fd) s fd k

  doom-Armed : (s : Server) (fd : ℕ) → has_conn s.conns fd ≡ true → Armed (conn_of (doom s fd) fd)
  unfolding doom
  doom-Armed s fd h = elim (Bool-cases (conn_of s fd).closing) [
    | inl e ↦ rw (e, doom) (inl e)
    | inr e ↦
        rw (e, doom)
          (inl (
            ap (λ c. c.closing)
              (find-edit fd (λ c. record c { closing = true }) s.conns (λ _. refl) h)))
  ]

  agree : (want armed : Bool) → (if want then armed else not armed) ≡ true → armed ≡ want
  agree true armed e = e
  agree false true e = absurd (ground arith)
  agree false false e = refl

  mask-Armed :
      (s : Server) (fd : ℕ)
      → ((u : Server) → cfg.mod_ok u fd ≡ true)
      → has_conn s.conns fd ≡ true
      → Armed (conn_of (update_epoll_mask cfg s fd) fd)
  unfolding update_epoll_mask
  mask-Armed s fd o h =
      let want = not (is_empty (conn_of s fd).out) in
      elim (Bool-cases
        (if want then (conn_of s fd).armed_write else not (conn_of s fd).armed_write)) [
          | inl e ↦ rw (e, update_epoll_mask) (inr (agree want (conn_of s fd).armed_write e))
          | inr e ↦
              rw (e, o s, update_epoll_mask)
                (subst Armed
                  (sym (find-edit fd (λ c. record c { armed_write = want }) s.conns (λ _. refl) h))
                  (inr refl))
        ]

  choose-Armed :
      (b : Bool) (t u : Server) (fd : ℕ)
      → Armed (conn_of t fd)
      → Armed (conn_of u fd)
      → Armed (conn_of (if b then t else u) fd)
  choose-Armed true t u fd a c = a
  choose-Armed false t u fd a c = c

  flush_loop-Armed :
      (rs : List Sent) (s : Server) (fd : ℕ)
      → ((u : Server) → cfg.mod_ok u fd ≡ true)
      → has_conn s.conns fd ≡ true
      → Armed (conn_of (flush_loop cfg rs s fd) fd)
  unfolding flush_loop
  flush_loop-Armed [] s fd o h = mask-Armed _ fd o h
  flush_loop-Armed (accepted zero ∷ rs) s fd o h =
      choose-Armed (is_empty (conn_of s fd).out) _ _ fd (mask-Armed _ fd o h) (doom-Armed _ fd h)
  flush_loop-Armed (accepted (suc n) ∷ rs) s fd o h =
      choose-Armed (is_empty (conn_of s fd).out) _ _ fd (mask-Armed _ fd o h) (
        flush_loop-Armed rs (transmit s fd (suc n)) fd o
          (has_edit fd (λ c. record c { out = drop (suc n) c.out }) s.conns (λ _. refl) ∙ h))
  flush_loop-Armed (Sent.interrupted ∷ rs) s fd o h =
      choose-Armed (is_empty (conn_of s fd).out) _ _ fd (mask-Armed _ fd o h)
        (flush_loop-Armed rs s fd o h)
  flush_loop-Armed (Sent.failed ∷ rs) s fd o h =
      choose-Armed (is_empty (conn_of s fd).out) _ _ fd (mask-Armed _ fd o h) (doom-Armed _ fd h)

  -- After flush_send of a connection for which epoll_ctl succeeds, the connection is closing, or
  -- EPOLLOUT is armed exactly when bytes are left in its queue: none waits for an event that never
  -- comes, and no idle connection keeps the loop awake.
  pub flush_send-Armed :
      (s : Server) (fd : ℕ)
      → ((u : Server) → cfg.mod_ok u fd ≡ true)
      → has_conn s.conns fd ≡ true
      → Armed (conn_of (flush_send cfg s fd) fd)
  unfolding flush_send
  flush_send-Armed s fd o h = flush_loop-Armed (s.sends fd) s fd o h
