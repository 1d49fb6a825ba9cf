-- ===== src/Epoll/Output/Settles.antt =====
-- server-epoll/server.cpp: what flush_send leaves on its own connection, and that it leaves the others
-- alone.
use io_uring_net_engine.Prelude.{
  ℕ, zero, suc, ◌≡◌, ◌≢◌, ◌⊎◌, refl, sym, ◌∙◌, ap, arith, Bool, true, false, not, List, [], ◌∷◌,
  drop, if◌then◌else◌, Bool-cases, inl, inr,
}
use io_uring_net_engine.Epoll.State.{
  is_empty, Sent, accepted, Conn, Config, Server, find_conn, edit_conn, conn_of, edit, at,
}
use io_uring_net_engine.Prelude.At.{at_same}
use io_uring_net_engine.Epoll.State.Edits.{find-edit, find-edit_else, out-edit, has_open}
use io_uring_net_engine.Epoll.Output.{doom, update_epoll_mask, transmit, flush_loop, flush_send}

-- Some result of send is an error, or a 0, which counts as one.
unfoldable pub fails : List Sent → Bool
fails [] = false
fails (accepted zero ∷ rs) = true
fails (accepted (suc n) ∷ rs) = fails rs
fails (Sent.interrupted ∷ rs) = fails rs
fails (Sent.failed ∷ rs) = true

-- Nothing waits, or the kernel takes no more for now, or the connection is closing.
abbrev pub Settled : Server → ℕ → Type 0
Settled t fd =
    ((conn_of t fd).closing ≡ true) ⊎ ((is_empty (conn_of t fd).out ≡ true) ⊎ (t.sends fd ≡ []))

-- What `fd` may go through: it closes only when one of its sends fails.
pub record Flushed (s t : Server) (fd : ℕ) : Type 0 where
  pub reason :
      (conn_of t fd).closing ≡ true → ((conn_of s fd).closing ≡ true) ⊎ (fails (s.sends fd) ≡ true)
  pub later : fails (t.sends fd) ≡ true → fails (s.sends fd) ≡ true

pub Flushed-trans : {s t u : Server} {fd : ℕ} → Flushed s t fd → Flushed t u fd → Flushed s u fd
Flushed-trans {s} {t} {u} {fd} a b = record {
  reason = λ h. go (b.reason h);
  later = λ h. a.later (b.later h);
}
  where
    go :
        ((conn_of t fd).closing ≡ true) ⊎ (fails (t.sends fd) ≡ true)
        → ((conn_of s fd).closing ≡ true) ⊎ (fails (s.sends fd) ≡ true)
    go (inl c) = a.reason c
    go (inr f) = inr (a.later f)

-- Nothing happens to `k`.
abbrev pub Away : Server → Server → ℕ → Type 0
Away s t k = (conn_of t k ≡ conn_of s k) × (t.sends k ≡ s.sends k)

pub Away-Flushed : (s t : Server) (k : ℕ) → Away s t k → Flushed s t k
Away-Flushed s t k (c, r) = record {
  reason = λ h. inl (sym (ap (λ d. d.closing) c) ∙ h);
  later = λ h. ap fails (sym r) ∙ h;
}

pub Away-Settled : (s t : Server) (k : ℕ) → Away s t k → Settled s k → Settled t k
Away-Settled s t k (c, r) (inl h) = inl (ap (λ d. d.closing) c ∙ h)
Away-Settled s t k (c, r) (inr (inl h)) = inr (inl (ap (λ d. is_empty d.out) c ∙ h))
Away-Settled s t k (c, r) (inr (inr h)) = inr (inr (r ∙ h))

pub closing-edit :
    (f : Conn → Conn) (cs : List Conn) (fd k : ℕ)
    → ((c : Conn) → (f c).fd ≡ c.fd)
    → ((c : Conn) → (f c).closing ≡ c.closing)
    → (find_conn (edit_conn f cs fd) k).closing ≡ (find_conn cs k).closing
unfolding find_conn edit_conn
closing-edit f [] fd k key o = refl
closing-edit f (c ∷ cs) fd k key o = ground (arith, closing-edit f cs fd k key o, key c, o c)

doom_away :
    (s : Server) (fd k : ℕ) {script : List Sent}
    → k ≢ fd
    → s.sends k ≡ script
    → (conn_of (doom s fd) k ≡ conn_of s k) × ((doom s fd).sends k ≡ script)
unfolding doom
doom_away s fd k ne r = elim (Bool-cases (conn_of s fd).closing) [
  | inl e ↦ rw (e, doom) (refl, r)
  | inr e ↦
      rw (e, doom)
        (find-edit_else fd (λ c. record c { closing = true }) s.conns k (λ _. refl) ne, r)
]

pub closing-doom : (s : Server) (fd : ℕ) → (conn_of (doom s fd) fd).closing ≡ true
unfolding doom
closing-doom s fd = elim (Bool-cases (conn_of s fd).closing) [
  | inl e ↦ rw (e, doom) e
  | inr e ↦
      rw (e, doom)
        (ap (λ c. c.closing)
          (find-edit fd (λ c. record c { closing = true }) s.conns (λ _. refl)
            (has_open fd s.conns e)))
]

sends-doom : (s : Server) (fd : ℕ) → (doom s fd).sends ≡ s.sends
unfolding doom
sends-doom s fd = ground arith

module _ (cfg : Config) where
  -- Everything that the loop of flush_send does, as a rule.
  module _ (P : List Sent → Server → Server → Type 0) (fd : ℕ)
      (idle : (rs : List Sent) (s : Server)
        → (rs ≡ []) ⊎ (is_empty (conn_of s fd).out ≡ true)
        → P rs s (update_epoll_mask cfg (record s { sends = at s.sends fd rs }) fd))
      (dies : (r : Sent) (rs : List Sent) (s : Server)
        → fails (r ∷ rs) ≡ true
        → P (r ∷ rs) s (doom (record s { sends = at s.sends fd rs }) fd))
      (takes : (n : ℕ) (rs : List Sent) (s t : Server)
        → P rs (transmit s fd (suc n)) t
        → P (accepted (suc n) ∷ rs) s t)
      (repeats : (rs : List Sent) (s t : Server) → P rs s t → P (Sent.interrupted ∷ rs) s t) where
    either :
        (rs : List Sent) (s : Server) (b : Bool) (t u : Server)
        → (b ≡ true → P rs s t)
        → P rs s u
        → P rs s (if b then t else u)
    either rs s true t u a c = a refl
    either rs s false t u a c = c

    flush_rule : (rs : List Sent) (s : Server) → P rs s (flush_loop cfg rs s fd)
    unfolding flush_loop fails
    flush_rule [] s = idle [] s (inl refl)
    flush_rule (accepted zero ∷ rs) s =
        either (accepted zero ∷ rs) s (is_empty (conn_of s fd).out) _ _
          (λ e. idle (accepted zero ∷ rs) s (inr e)) (dies (accepted zero) rs s refl)
    flush_rule (accepted (suc n) ∷ rs) s =
        either (accepted (suc n) ∷ rs) s (is_empty (conn_of s fd).out) _ _
          (λ e. idle (accepted (suc n) ∷ rs) s (inr e))
          (takes n rs s _ (flush_rule rs (transmit s fd (suc n))))
    flush_rule (Sent.interrupted ∷ rs) s =
        either (Sent.interrupted ∷ rs) s (is_empty (conn_of s fd).out) _ _
          (λ e. idle (Sent.interrupted ∷ rs) s (inr e)) (repeats rs s _ (flush_rule rs s))
    flush_rule (Sent.failed ∷ rs) s =
        either (Sent.failed ∷ rs) s (is_empty (conn_of s fd).out) _ _
          (λ e. idle (Sent.failed ∷ rs) s (inr e)) (dies Sent.failed rs s refl)

  -- update_epoll_mask changes a flag of its connection at most.
  mask_rule :
      (Q : Server → Type 0) (s : Server) (fd : ℕ)
      → Q s
      → ((w : Bool) → Q (edit s fd (λ c. record c { armed_write = w })))
      → Q (update_epoll_mask cfg s fd)
  unfolding update_epoll_mask
  mask_rule Q s fd a b =
      let want = not (is_empty (conn_of s fd).out) in
      elim (Bool-cases
        (if want then (conn_of s fd).armed_write else not (conn_of s fd).armed_write)) [
          | inl e ↦ rw (e, update_epoll_mask) a
          | inr e ↦ elim (Bool-cases (cfg.mod_ok s fd)) [
            | inl o ↦ rw (e, o, update_epoll_mask) (b want)
            | inr o ↦ rw (e, o, update_epoll_mask) a
          ]
        ]

  pub flush_send-Away : (s : Server) (fd k : ℕ) → k ≢ fd → Away s (flush_send cfg s fd) k
  unfolding flush_send
  flush_send-Away s fd k ne =
      flush_rule (λ rs s t. Away s t k) fd
        (λ rs s h.
          let put = record s { sends = at s.sends fd rs } in
          mask_rule (λ t. Away s t k) put fd (refl, script s rs)
            (λ w. (
              find-edit_else fd (λ c. record c { armed_write = w }) s.conns k (λ _. refl) ne,
              script s rs,
            )))
        (λ r rs s h. doomed s rs)
        (λ n rs s t a. (
          a.0
              ∙ find-edit_else fd (λ c. record c { out = drop (suc n) c.out }) s.conns k (λ _. refl)
                  ne,
          a.1,
        ))
        (λ rs s t a. a) (s.sends fd) s
    where
      script : (s : Server) (rs : List Sent) → at s.sends fd rs k ≡ s.sends k
      script s rs = ground (arith, ne)

      doomed :
          (s : Server) (rs : List Sent) → Away s (doom (record s { sends = at s.sends fd rs }) fd) k
      doomed s rs = doom_away (record s { sends = at s.sends fd rs }) fd k ne (script s rs)

  pub flush_send-Settled : (s : Server) (fd : ℕ) → Settled (flush_send cfg s fd) fd
  unfolding flush_send
  flush_send-Settled s fd =
      flush_rule (λ rs s t. Settled t fd) fd
        (λ rs s h.
          mask_rule (λ t. Settled t fd) (record s { sends = at s.sends fd rs }) fd
            (inr (stays rs s h)) (λ w. inr (marks rs s w h)))
        (λ r rs s h. inl (closing-doom (record s { sends = at s.sends fd rs }) fd))
        (λ n rs s t a. a) (λ rs s t a. a) (s.sends fd) s
    where
      stays :
          (rs : List Sent) (s : Server)
          → (rs ≡ []) ⊎ (is_empty (conn_of s fd).out ≡ true)
          → (is_empty (conn_of s fd).out ≡ true) ⊎ (at s.sends fd rs fd ≡ [])
      stays rs s (inl e) = inr (at_same s.sends fd rs ∙ e)
      stays rs s (inr e) = inl e

      marks :
          (rs : List Sent) (s : Server) (w : Bool)
          → (rs ≡ []) ⊎ (is_empty (conn_of s fd).out ≡ true)
          → (is_empty (find_conn (edit_conn (λ c. record c { armed_write = w }) s.conns fd) fd).out
              ≡ true)
            ⊎ (at s.sends fd rs fd ≡ [])
      marks rs s w (inl e) = inr (at_same s.sends fd rs ∙ e)
      marks rs s w (inr e) = inl (
          ap is_empty
            (out-edit (λ c. record c { armed_write = w }) s.conns fd fd (λ _. refl) (λ _. refl))
          ∙ e)

  -- A connection closes, and results of send are left, only as the script says.
  abbrev Told : ℕ → List Sent → Server → Server → Type 0
  Told fd rs s t =
      ((conn_of t fd).closing ≡ true → ((conn_of s fd).closing ≡ true) ⊎ (fails rs ≡ true))
      × (fails (t.sends fd) ≡ true → fails rs ≡ true)

  idle-Told :
      (fd : ℕ) (rs : List Sent) (s : Server)
      → Told fd rs s (update_epoll_mask cfg (record s { sends = at s.sends fd rs }) fd)
  idle-Told fd rs s =
      let left =
        λ (h : fails (at s.sends fd rs fd) ≡ true). sym (ap fails (at_same s.sends fd rs)) ∙ h in
      mask_rule (Told fd rs s) (record s { sends = at s.sends fd rs }) fd (inl, left)
        (λ w. (
          (λ h. inl (
              sym (
                closing-edit (λ c. record c { armed_write = w }) s.conns fd fd (λ _. refl)
                  (λ _. refl))
              ∙ h)),
          left,
        ))

  takes-Told :
      (fd n : ℕ) (rs : List Sent) (s t : Server)
      → Told fd rs (transmit s fd (suc n)) t
      → Told fd (accepted (suc n) ∷ rs) s t
  unfolding fails
  takes-Told fd n rs s t (reason, later) = ((λ h. go (reason h)), later)
    where
      go :
          ((conn_of (transmit s fd (suc n)) fd).closing ≡ true) ⊎ (fails rs ≡ true)
          → ((conn_of s fd).closing ≡ true) ⊎ (fails rs ≡ true)
      go (inl e) = inl (
          sym (
            closing-edit (λ c. record c { out = drop (suc n) c.out }) s.conns fd fd (λ _. refl)
              (λ _. refl))
          ∙ e)
      go (inr f) = inr f

  repeats-Told :
      (fd : ℕ) (rs : List Sent) (s t : Server)
      → Told fd rs s t
      → Told fd (Sent.interrupted ∷ rs) s t
  unfolding fails
  repeats-Told fd rs s t a = a

  pub flush_send-Flushed : (s : Server) (fd : ℕ) → Flushed s (flush_send cfg s fd) fd
  unfolding flush_send
  flush_send-Flushed s fd =
      let told =
        flush_rule (Told fd) fd (λ rs s _. idle-Told fd rs s) (λ r rs s h. ((λ _. inr h), λ _. h))
          (takes-Told fd) (repeats-Told fd) (s.sends fd) s in
      record { reason = told.0; later = told.1 }
