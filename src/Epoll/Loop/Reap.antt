-- ===== src/Epoll/Loop/Reap.antt =====
-- server-epoll/server.cpp: reap_doomed. The list grows under its loop, and the loop ends.
use io_uring_net_engine.Prelude.{
  ℕ, zero, suc, ◌+◌, ◌≤◌, ◌<◌, ◌≡◌, ◌⊎◌, refl, sym, ◌∙◌, ap, arith, true, false, not, ◌&&◌, some,
  List, [], ◌∷◌, ◌++◌, length, append-nil, get_or, ltb, ◌==◌, if◌then◌else◌, Bool-cases, ℕ_discrete,
  inl, inr,
}
use io_uring_net_engine.Tick.{session_remove}
use io_uring_net_engine.Epoll.State.{
  is_empty, Conn, Config, Server, has_conn, erase_conn, find_conn, conn_of, member,
}
use io_uring_net_engine.Epoll.State.Edits.{AllConns, AllConns-map, AllConns-erase, active_le}
use io_uring_net_engine.Epoll.Output.Stream.{Framed}
use io_uring_net_engine.Epoll.Output.{broadcast, leave_room, s_notice}
use io_uring_net_engine.Epoll.Output.Evolves.{
  Bounded, Recorded, Listed, potential, Evolves, Evolves-refl, Evolves-trans,
}
use io_uring_net_engine.Epoll.Output.Keeps.{Evolves-Keeps, fds, has-fds}
use io_uring_net_engine.Epoll.Output.Steps.{choose-Evolves, leave_room-Evolves, broadcast-Evolves}
use io_uring_net_engine.Epoll.Packets.{codes}
use io_uring_net_engine.Epoll.Loop.{reap_one, reap_loop, reap_doomed}
use io_uring_net_engine.Epoll.Loop.Valid.{Valid, keep-Valid}
use io_uring_net_engine.Epoll.Loop.Erase.{
  fds-erase, find-erase, active-erase, get_or-append, member-remove_fd_else, member-remove_fd_self,
  Distinct-remove_fd, length-remove_fd,
}

-- What reaping one fd does.
record Reaped (cfg : Config) (s t : Server) (fd : ℕ) : Type 0 where
  valid : Valid cfg t
  shrinks : potential t ≤ potential s
  gone : member (fds t.conns) fd ≡ false
  still_gone : (k : ℕ) → member (fds s.conns) k ≡ false → member (fds t.conns) k ≡ false
  more : List ℕ
  appended : t.doomed ≡ s.doomed ++ more

module _ (cfg : Config) where
  erased-Framed :
      (u : Server) (fd : ℕ)
      → Valid cfg u
      → (k : ℕ) → has_conn (erase_conn u.conns fd) k ≡ true
      → Framed (u.wire k ++ (find_conn (erase_conn u.conns fd) k).out)
  erased-Framed u fd w k h = elim (ℕ_discrete fd k) [
    | yes e ↦ absurd (
        ground (
          arith,
          sym h
              ∙ sym (has-fds (erase_conn u.conns fd) k)
              ∙ ap (λ i. member (fds (erase_conn u.conns fd)) i) (sym e)
              ∙ gone,
        ))
    | no ne ↦ (let f = find-erase u.conns fd k ne in rw f.1 (w.framed k (sym f.0 ∙ h)))
  ]
    where
      gone : member (fds (erase_conn u.conns fd)) fd ≡ false
      gone = rw (fds-erase u.conns fd) (member-remove_fd_self fd (fds u.conns) w.distinct)

  erase-Reaped :
      (s u : Server) (fd : ℕ)
      → Valid cfg s
      → Evolves s u
      → Reaped cfg s
          (record u { conns = erase_conn u.conns fd; tick = session_remove u.tick fd })
          fd
  erase-Reaped s u fd v e =
      let k = Evolves-Keeps e in
      let w = keep-Valid cfg s u k v in
      let erased = fds-erase u.conns fd in
      record {
        valid = record {
          sound = record {
            bounded = AllConns-erase Bounded u.conns fd w.sound.bounded;
            recorded = AllConns-erase (Recorded u.doomed) u.conns fd w.sound.recorded;
            listed = AllConns-erase (Listed u.dirty_fds) u.conns fd w.sound.listed;
            buffers = w.sound.buffers;
          };
          distinct = rw erased (Distinct-remove_fd fd (fds u.conns) w.distinct);
          within = rw erased (omega (arith, w.within, length-remove_fd fd (fds u.conns)));
          framed = erased-Framed u fd w;
        };
        shrinks = omega (arith, e.shrinks, active-erase u.conns fd);
        gone = rw erased (member-remove_fd_self fd (fds u.conns) w.distinct);
        still_gone = λ x a. rw erased (member-remove_fd_else fd (fds u.conns) x (rw k.same_fds a));
        more = e.more;
        appended = e.appended;
      }

  told-Evolves :
      (s : Server) (fd : ℕ) (c : Conn)
      → Evolves s (
          if not (is_empty c.room) && not (is_empty c.nick)
          then broadcast cfg
              (leave_room cfg s fd)
              c.room
              s_notice
              (c.nick ++ codes " left")
              (some fd)
          else leave_room cfg s fd)
  told-Evolves s fd c = Evolves-trans (leave_room-Evolves cfg s fd) (
      choose-Evolves (not (is_empty c.room) && not (is_empty c.nick)) _ _ _
        (λ _. broadcast-Evolves cfg _ c.room s_notice (c.nick ++ codes " left") (some fd))
        (λ _. Evolves-refl _))

  reap_one-Reaped : (s : Server) (fd : ℕ) → Valid cfg s → Reaped cfg s (reap_one cfg s fd) fd
  unfolding reap_one
  reap_one-Reaped s fd v = elim (Bool-cases (has_conn s.conns fd)) [
    | inl h ↦ rw (h, reap_one) (erase-Reaped s _ fd v (told-Evolves s fd (conn_of s fd)))
    | inr h ↦
        rw (h, reap_one)
          (record {
            valid = v;
            shrinks = omega arith;
            gone = has-fds s.conns fd ∙ h;
            still_gone = λ k a. a;
            more = [];
            appended = sym (append-nil s.doomed);
          })
  ]

-- The first `i` doomed fds name no connection.
abbrev Gone : ℕ → Server → Type 0
Gone i s = (k : ℕ) → k < i → member (fds s.conns) (get_or s.doomed k 0) ≡ false

module _ (cfg : Config) where
  Gone-next :
      (s t : Server) (i : ℕ)
      → i < length s.doomed
      → Reaped cfg s t (get_or s.doomed i 0)
      → Gone i s
      → Gone (i + 1) t
  Gone-next s t i l r g k h =
      rw (r.appended, get_or-append s.doomed r.more k (omega (arith, h, l))) (next (omega arith))
    where
      next : (k < i) ⊎ (k ≡ i) → member (fds t.conns) (get_or s.doomed k 0) ≡ false
      next (inl before) = r.still_gone (get_or s.doomed k 0) (g k before)
      next (inr here) = rw here r.gone

  -- Enough fuel: every turn moves the index by one, and no turn adds to what can still be doomed.
  reap_loop-Gone :
      (fuel i : ℕ) (s : Server)
      → Valid cfg s
      → potential s ≤ i + fuel
      → Gone i s
      → Valid cfg (reap_loop cfg fuel i s)
        × Gone (length (reap_loop cfg fuel i s).doomed) (reap_loop cfg fuel i s)
  unfolding reap_loop
  reap_loop-Gone zero i s v p g = (v, λ k h. g k (omega (arith, h, p)))
  reap_loop-Gone (suc fuel) i s v p g = elim (Bool-cases (ltb i (length s.doomed))) [
    | inl e ↦
        (let r = reap_one-Reaped cfg s (get_or s.doomed i 0) v in
          rw e (
            reap_loop-Gone fuel (i + 1) _ r.valid (omega (arith, r.shrinks, p))
              (Gone-next s _ i (ground (arith, e)) r g)))
    | inr e ↦ rw e (v, λ k h. g k (ground (arith, h, e)))
  ]

abbrev pub Open : Conn → Type 0
Open c = c.closing ≡ false

index_of :
    (xs : List ℕ) (x : ℕ) → member xs x ≡ true → (k : ℕ) × ((k < length xs) × (get_or xs k 0 ≡ x))
unfolding member
index_of [] x h = absurd (ground arith)
index_of (y ∷ ys) x h = elim (Bool-cases (y == x)) [
  | inl e ↦ (0, (omega arith, ground (arith, e)))
  | inr e ↦ (let i = index_of ys x (rw e at h) in (suc i.0, (omega (arith, i.1.0), i.1.1)))
]

-- A closing connection is on the list, and the list names no connection.
gone-Open :
    (doomed : List ℕ) (cs : List Conn)
    → AllConns (Recorded doomed) cs
    → ((k : ℕ) → k < length doomed → member (fds cs) (get_or doomed k 0) ≡ false)
    → AllConns Open cs
unfolding member
gone-Open doomed [] r g = tt
gone-Open doomed (c ∷ cs) r g =
    (head (Bool-cases c.closing), gone-Open doomed cs r.1 (λ k h. ground (arith, g k h)))
  where
    head : (c.closing ≡ true) ⊎ (c.closing ≡ false) → c.closing ≡ false
    head (inr e) = e
    head (inl e) =
        let i = index_of doomed c.fd (ground (arith, r.0, e)) in
        absurd (ground (arith, g i.0 i.1.0, i.1.1))

module _ (cfg : Config) where
  reaped :
      (s : Server)
      → Valid cfg s
      → Valid cfg (reap_loop cfg (length s.doomed + length s.conns) 0 s)
        × Gone
            (length (reap_loop cfg (length s.doomed + length s.conns) 0 s).doomed)
            (reap_loop cfg (length s.doomed + length s.conns) 0 s)
  reaped s v =
      reap_loop-Gone cfg (length s.doomed + length s.conns) 0 s v (omega (arith, active_le s.conns))
        (λ k h. elim h [ ])

  -- In a valid state, reap_doomed's loop reaches the end of the list that grows under it: afterwards
  -- no connection is closing and the list is empty, and the state is valid again.
  pub reap_doomed-Open :
      (s : Server)
      → Valid cfg s
      → AllConns Open (reap_doomed cfg s).conns
        × (((reap_doomed cfg s).doomed ≡ []) × Valid cfg (reap_doomed cfg s))
  unfolding reap_doomed
  reap_doomed-Open s v =
      let (w, g) = reaped s v in
      let live = gone-Open _ _ w.sound.recorded g in
      (
        live,
        (
          refl,
          record {
            sound = record {
              bounded = w.sound.bounded;
              recorded = AllConns-map Open (Recorded []) _ (λ c e. ground (arith, e)) live;
              listed = w.sound.listed;
              buffers = w.sound.buffers;
            };
            distinct = w.distinct;
            within = w.within;
            framed = w.framed;
          },
        ),
      )
