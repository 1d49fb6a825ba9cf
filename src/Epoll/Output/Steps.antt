-- ===== src/Epoll/Output/Steps.antt =====
-- Every function of Epoll/Output keeps what Evolves says.
use io_uring_net_engine.Prelude.{
  ℕ, zero, suc, ◌+◌, ◌≤◌, ◌≡◌, refl, arith, Bool, true, false, not, ◌&&◌, Option, none, some, List,
  [], ◌∷◌, ◌++◌, length, length-append, length-drop, drop, ltb, if◌then◌else◌, Bool-cases,
  Option-cases, inl, inr,
}
use io_uring_net_engine.Epoll.State.{
  Bytes, is_empty, Sent, accepted, Config, Server, conn_of, edit, at, lookup, discard, remove_fd,
}
use io_uring_net_engine.Epoll.State.Edits.{member_last, find_waiting, has_open, has_waiting}
use io_uring_net_engine.Epoll.Output.Stream.{
  AllBufs, AllBufs-store, AllBufs-discard, append-Grows, move-Grows,
}
use io_uring_net_engine.Epoll.Output.{
  send_cap, tick_cap, frame, s_tick, max_payload, doom, append_frame, queue_send, queue_tick_frame,
  update_epoll_mask, transmit, flush_loop, flush_send, send_or_mark, is_fd, broadcast_to, broadcast,
  drop_member, leave_room, tick_members, tick_room, tick_rooms, flush_tick_rooms,
}
use io_uring_net_engine.Epoll.Output.Evolves.{
  Evolves, Evolves-refl, Evolves-trans, Sound, edit-Evolves, wired-Evolves, quiet-Evolves,
  other-Evolves, doom-Evolves,
}

append_frame-Evolves :
    (s : Server) (fd type : ℕ) (payload : Bytes)
    → (conn_of s fd).closing ≡ false
    → length payload ≤ tick_cap
    → Evolves s (append_frame s fd type payload)
unfolding append_frame
append_frame-Evolves s fd type payload here fit =
    elim (Bool-cases (ltb send_cap (length (conn_of s fd).out + 4 + length payload))) [
      | inl e ↦ rw (e, append_frame) (doom-Evolves s fd)
      | inr e ↦
          rw (e, append_frame)
            (wired-Evolves s fd (λ c. record c { out = c.out ++ frame type payload }) s.wire
              (λ _. refl) (λ _. refl) (λ _. refl)
              (λ b. ground (arith, e, length-append (conn_of s fd).out (frame type payload)))
              (λ l. l) (append-Grows s fd type payload (has_open fd s.conns here) fit))
    ]

pub queue_send-Evolves :
    (s : Server) (fd type : ℕ) (payload : Bytes) → Evolves s (queue_send s fd type payload)
unfolding queue_send
queue_send-Evolves s fd type payload = elim (Bool-cases (conn_of s fd).closing) [
  | inl h ↦ rw (h, queue_send) (Evolves-refl s)
  | inr h ↦ elim (Bool-cases (ltb max_payload (length payload))) [
    | inl long ↦ rw (h, long, queue_send) (Evolves-refl s)
    | inr short ↦
        rw (h, short, queue_send) (append_frame-Evolves s fd type payload h (ground (arith, short)))
  ]
]

pub queue_tick_frame-Evolves :
    (s : Server) (fd : ℕ) (payload : Bytes)
    → length payload ≤ tick_cap
    → Evolves s (queue_tick_frame s fd payload)
unfolding queue_tick_frame
queue_tick_frame-Evolves s fd payload fit = elim (Bool-cases (conn_of s fd).closing) [
  | inl h ↦ rw (h, queue_tick_frame) (Evolves-refl s)
  | inr h ↦ rw (h, queue_tick_frame) (append_frame-Evolves s fd s_tick payload h fit)
]

pub choose-Evolves :
    (b : Bool) (s t u : Server)
    → (b ≡ true → Evolves s t)
    → (b ≡ false → Evolves s u)
    → Evolves s (if b then t else u)
choose-Evolves true s t u v w = v refl
choose-Evolves false s t u v w = w refl

-- A step that is skipped, or taken.
pub unless-Evolves : (b : Bool) (s t : Server) → Evolves s t → Evolves s (if b then s else t)
unless-Evolves true s t v = Evolves-refl s
unless-Evolves false s t v = v

module _ (cfg : Config) where
  mask-Evolves : (s : Server) (fd : ℕ) → Evolves s (update_epoll_mask cfg s fd)
  unfolding update_epoll_mask
  mask-Evolves s fd =
      let want = not (is_empty (conn_of s fd).out) in
      elim (Bool-cases
        (if want then (conn_of s fd).armed_write else not (conn_of s fd).armed_write)) [
          | inl e ↦ rw (e, update_epoll_mask) (Evolves-refl s)
          | inr e ↦ elim (Bool-cases (cfg.mod_ok s fd)) [
            | inl o ↦
                rw (e, o, update_epoll_mask)
                  (quiet-Evolves s fd (λ c. record c { armed_write = want }) (λ _. refl) (λ _. refl)
                    (λ _. refl) (λ _. refl) (λ l. l))
            | inr o ↦ rw (e, o, update_epoll_mask) (Evolves-refl s)
          ]
        ]

  transmit-Evolves :
      (s : Server) (fd n : ℕ) → is_empty (conn_of s fd).out ≡ false → Evolves s (transmit s fd n)
  transmit-Evolves s fd n h =
      wired-Evolves s fd (λ c. record c { out = drop n c.out }) _ (λ _. refl) (λ _. refl)
        (λ _. refl) (λ b. omega (arith, length-drop n (conn_of s fd).out, b)) (λ l. l)
        (move-Grows s fd n (has_waiting fd s.conns h))

  masked-Evolves :
      (s : Server) (fd : ℕ) (left : List Sent)
      → Evolves s (update_epoll_mask cfg (record s { sends = at s.sends fd left }) fd)
  masked-Evolves s fd left =
      Evolves-trans
        (other-Evolves s (record s { sends = at s.sends fd left }) refl refl refl refl (λ b. b))
        (mask-Evolves _ fd)

  stopped-Evolves :
      (s : Server) (fd : ℕ) (left : List Sent)
      → Evolves s (doom (record s { sends = at s.sends fd left }) fd)
  stopped-Evolves s fd left =
      Evolves-trans
        (other-Evolves s (record s { sends = at s.sends fd left }) refl refl refl refl (λ b. b))
        (doom-Evolves _ fd)

  -- The loop's test comes before each of its cases.
  guarded-Evolves :
      (s t : Server) (fd : ℕ) (left : List Sent)
      → (is_empty (conn_of s fd).out ≡ false → Evolves s t)
      → Evolves s (
          if is_empty (conn_of s fd).out
          then update_epoll_mask cfg (record s { sends = at s.sends fd left }) fd
          else t)
  guarded-Evolves s t fd left v = elim (Bool-cases (is_empty (conn_of s fd).out)) [
    | inl e ↦ rw e (masked-Evolves s fd left)
    | inr e ↦ rw e (v e)
  ]

  flush_loop-Evolves : (rs : List Sent) (s : Server) (fd : ℕ) → Evolves s (flush_loop cfg rs s fd)
  unfolding flush_loop
  flush_loop-Evolves [] s fd = masked-Evolves s fd []
  flush_loop-Evolves (accepted zero ∷ rs) s fd =
      guarded-Evolves s _ fd _ (λ _. stopped-Evolves s fd rs)
  flush_loop-Evolves (accepted (suc n) ∷ rs) s fd = guarded-Evolves s _ fd _ (λ h.
      Evolves-trans (transmit-Evolves s fd (suc n) h)
        (flush_loop-Evolves rs (transmit s fd (suc n)) fd))
  flush_loop-Evolves (Sent.interrupted ∷ rs) s fd =
      guarded-Evolves s _ fd _ (λ _. flush_loop-Evolves rs s fd)
  flush_loop-Evolves (Sent.failed ∷ rs) s fd =
      guarded-Evolves s _ fd _ (λ _. stopped-Evolves s fd rs)

  pub flush_send-Evolves : (s : Server) (fd : ℕ) → Evolves s (flush_send cfg s fd)
  unfolding flush_send
  flush_send-Evolves s fd = flush_loop-Evolves (s.sends fd) s fd

  mark-Evolves :
      (s : Server) (fd : ℕ)
      → is_empty (conn_of s fd).out ≡ false
      → Evolves s (record (edit s fd (λ c. record c { dirty = true })) {
        dirty_fds = s.dirty_fds ++ fd ∷ [];
      })
  mark-Evolves s fd h =
      edit-Evolves s fd (λ c. record c { dirty = true }) (fd ∷ []) (λ _. refl) (λ _. refl)
        (λ _. refl) (λ _. refl) (λ b. b)
        (λ l. rw (find_waiting fd s.conns h) (member_last s.dirty_fds fd))

  pub send_or_mark-Evolves : (s : Server) (fd : ℕ) → Evolves s (send_or_mark cfg s fd)
  unfolding send_or_mark
  send_or_mark-Evolves s fd =
      choose-Evolves (not cfg.batch_flush) s _ _ (λ _. flush_send-Evolves s fd)
        (λ _.
          choose-Evolves (not (conn_of s fd).dirty && not (is_empty (conn_of s fd).out)) s _ _
            (λ e. mark-Evolves s fd (ground (arith, e))) (λ _. Evolves-refl s))

  broadcast_to-Evolves :
      (fds : List ℕ) (s : Server) (type : ℕ) (payload : Bytes) (except_fd : Option ℕ)
      → Evolves s (broadcast_to cfg fds s type payload except_fd)
  unfolding broadcast_to
  broadcast_to-Evolves [] s type payload x = Evolves-refl s
  broadcast_to-Evolves (fd ∷ fds) s type payload x =
      Evolves-trans
        (unless-Evolves (is_fd x fd) s _ (
          unless-Evolves (conn_of s fd).closing s _
            (Evolves-trans (queue_send-Evolves s fd type payload) (send_or_mark-Evolves _ fd))))
        (broadcast_to-Evolves fds _ type payload x)

  pub broadcast-Evolves :
      (s : Server) (room : Bytes) (type : ℕ) (payload : Bytes) (except_fd : Option ℕ)
      → Evolves s (broadcast cfg s room type payload except_fd)
  unfolding broadcast
  broadcast-Evolves s room type payload x = elim (Option-cases (lookup s.rooms room)) [
    | inl e ↦ rw (e, broadcast) (Evolves-refl s)
    | inr (fds, e) ↦ rw (e, broadcast) (broadcast_to-Evolves fds s type payload x)
  ]

  forget :
      (b : Bool) (room : Bytes) (es : List (Bytes × Bytes))
      → AllBufs es
      → AllBufs (if b then discard es room else es)
  forget true room es a = AllBufs-discard es room a
  forget false room es a = a

  drop_member-Evolves :
      (s : Server) (fd : ℕ) (room : Bytes) (o : Option (List ℕ))
      → Evolves s (drop_member cfg s fd room o)
  unfolding drop_member
  drop_member-Evolves s fd room none = Evolves-refl s
  drop_member-Evolves s fd room (some fds) = elim (Bool-cases (is_empty (remove_fd fds fd))) [
    | inl e ↦ rw e (other-Evolves _ _ refl refl refl refl (forget cfg.coalesce room s.tick_buf))
    | inr e ↦ rw e (other-Evolves _ _ refl refl refl refl (λ b. b))
  ]

  pub leave_room-Evolves : (s : Server) (fd : ℕ) → Evolves s (leave_room cfg s fd)
  unfolding leave_room
  leave_room-Evolves s fd = unless-Evolves (is_empty (conn_of s fd).room) s _ (
      Evolves-trans
        (drop_member-Evolves s fd (conn_of s fd).room (lookup s.rooms (conn_of s fd).room))
        (quiet-Evolves _ fd (λ c. record c { room = [] }) (λ _. refl) (λ _. refl) (λ _. refl)
          (λ _. refl) (λ l. l)))

  tick_members-Evolves :
      (fds : List ℕ) (s : Server) (buf : Bytes)
      → length buf ≤ tick_cap
      → Evolves s (tick_members cfg fds s buf)
  unfolding tick_members
  tick_members-Evolves [] s buf fit = Evolves-refl s
  tick_members-Evolves (fd ∷ fds) s buf fit =
      Evolves-trans
        (unless-Evolves (conn_of s fd).closing s _ (
          Evolves-trans (queue_tick_frame-Evolves s fd buf fit) (
            Evolves-trans
              (other-Evolves _
                (record (queue_tick_frame s fd buf) {
                  tick_frames = (queue_tick_frame s fd buf).tick_frames + 1;
                })
                refl refl refl refl (λ b. b))
              (send_or_mark-Evolves _ fd))))
        (tick_members-Evolves fds _ buf fit)

  tick_room-Evolves :
      (o : Option (List ℕ)) (s : Server) (buf : Bytes)
      → length buf ≤ tick_cap
      → Evolves s (tick_room cfg o s buf)
  unfolding tick_room
  tick_room-Evolves none s buf fit = Evolves-refl s
  tick_room-Evolves (some fds) s buf fit = tick_members-Evolves fds s buf fit

  tick_rooms-Evolves :
      (es : List (Bytes × Bytes)) (s : Server) → AllBufs es → Evolves s (tick_rooms cfg es s)
  unfolding tick_rooms
  tick_rooms-Evolves [] s a = Evolves-refl s
  tick_rooms-Evolves (e ∷ es) s a =
      Evolves-trans
        (unless-Evolves (is_empty e.1) s _ (
          Evolves-trans (tick_room-Evolves (lookup s.rooms e.0) s e.1 a.0)
            (other-Evolves _ _ refl refl refl refl (AllBufs-store _ e.0 [] (omega arith)))))
        (tick_rooms-Evolves es _ a.1)

  pub flush_tick_rooms-Evolves : (s : Server) → Sound s → Evolves s (flush_tick_rooms cfg s)
  unfolding flush_tick_rooms
  flush_tick_rooms-Evolves s v = tick_rooms-Evolves s.tick_buf s v.buffers
