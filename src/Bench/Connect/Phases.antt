-- ===== src/Bench/Connect/Phases.antt =====
-- client-bench/src/connect.cpp: what holds of a phase between two calls, and what an edit at one fd
-- keeps of it.
use io_uring_net_engine.Prelude.{
  ℕ, ◌+◌, ◌-◌, ◌≤◌, ◌<◌, ◌≡◌, refl, sym, ◌∙◌, ap, subst, arith, Bool, true, false, not, Option,
  none, some, List, [], ◌∷◌, ◌++◌, length, length-append, ◌==◌, Bool-cases, inl, inr,
}
use io_uring_net_engine.Prelude.At.{at_here, at_else, at_self}
use io_uring_net_engine.Epoll.State.{Bytes, is_empty, at}
use io_uring_net_engine.Bench.{Proto}
use io_uring_net_engine.Bench.Conn.{ConnState, connecting, ready, dead, Conn, empty_conn}
use io_uring_net_engine.Bench.Socket.{Kernel}
use io_uring_net_engine.Bench.Socket.Stream.{outgoing}
use io_uring_net_engine.Bench.Connect.{Phase, erase_first, hello}
use io_uring_net_engine.Bench.Connect.Counts.{
  one_if, occurrences, total, occurrences-append, occurrences-erase_first, length-erase_first,
}

abbrev pub is_connecting : ConnState → Bool
is_connecting ConnState.none = false
is_connecting connecting = true
is_connecting ready = false
is_connecting dead = false

abbrev pub is_ready : ConnState → Bool
is_ready ConnState.none = false
is_ready connecting = false
is_ready ready = true
is_ready dead = false

-- The list has `n` entries, each fd in one of these states once and no other.
abbrev pub Tracks : (ConnState → Bool) → ℕ → List ℕ → (ℕ → Conn) → Type 0
Tracks g n fds conns =
    (length fds ≡ n) × ((fd : ℕ) → occurrences fd fds ≡ one_if (g (conns fd).state))

module _ (g : ConnState → Bool) (n : ℕ) (fds : List ℕ) (conns : ℕ → Conn) (fd : ℕ) (c : Conn) where
  turned : (x : ℕ) → (fd == x) ≡ (x == fd)
  turned x = ground arith

  same_conn : (x : ℕ) → (x == fd) ≡ true → conns x ≡ conns fd
  same_conn x e = ap conns (ground arith)

  -- The list follows an edit of the connection at `fd`.
  follows :
      (after : List ℕ)
      → ((x : ℕ) → (x == fd) ≡ true → occurrences x after ≡ one_if (g c.state))
      → ((x : ℕ) → (x == fd) ≡ false → occurrences x after ≡ occurrences x fds)
      → Tracks g n fds conns
      → (x : ℕ) → occurrences x after ≡ one_if (g (at conns fd c x).state)
  follows after here else_ t x = elim (Bool-cases (x == fd)) [
    | inl e ↦ rw (at_here conns fd c x e) (here x e)
    | inr e ↦ rw (at_else conns fd c x e) (else_ x e ∙ t.1 x)
  ]

  pub track_same :
      g c.state ≡ g (conns fd).state → Tracks g n fds conns → Tracks g n fds (at conns fd c)
  track_same e t =
      (t.0, follows fds (λ x y. t.1 x ∙ rw (same_conn x y) (ap one_if (sym e))) (λ x y. refl) t)

  pub track_add :
      g (conns fd).state ≡ false
      → g c.state ≡ true
      → Tracks g n fds conns
      → Tracks g (n + 1) (fds ++ (fd ∷ [])) (at conns fd c)
  track_add was is t = (
    omega (arith, t.0, length-append fds (fd ∷ [])),
    follows (fds ++ (fd ∷ []))
        (λ x y. occurrences-append x fd fds ∙ rw (turned x, y, is, t.1 x, same_conn x y, was) refl)
        (λ x y. occurrences-append x fd fds ∙ rw (turned x, y) (omega arith)) t,
  )

  pub track_stands : g (conns fd).state ≡ true → Tracks g n fds conns → 1 ≤ occurrences fd fds
  track_stands was t = subst (λ m. 1 ≤ m) (sym (t.1 fd ∙ ap one_if was)) (omega arith)

  pub track_remove :
      g (conns fd).state ≡ true
      → g c.state ≡ false
      → Tracks g n fds conns
      → (1 ≤ n) × Tracks g (n - 1) (erase_first fds fd) (at conns fd c)
  track_remove was is t = (
    omega (arith, t.0, length-erase_first fd fds (track_stands was t)),
    (
      omega (arith, t.0, length-erase_first fd fds (track_stands was t)),
      follows (erase_first fds fd) (λ x y. rw is (gone x y)) (λ x y. still x y) t,
    ),
  )
    where
      gone : (x : ℕ) → (x == fd) ≡ true → occurrences x (erase_first fds fd) ≡ 0
      gone x y = omega (
        arith,
        subst (λ b. occurrences x (erase_first fds fd) + one_if b ≡ occurrences x fds)
            (turned x ∙ y) (occurrences-erase_first x fd fds (track_stands was t)),
        (t.1 x ∙ ap (λ k. one_if (g k.state)) (same_conn x y) ∙ ap one_if was),
      )

      still : (x : ℕ) → (x == fd) ≡ false → occurrences x (erase_first fds fd) ≡ occurrences x fds
      still x y = omega (
        arith,
        subst (λ b. occurrences x (erase_first fds fd) + one_if b ≡ occurrences x fds)
            (turned x ∙ y) (occurrences-erase_first x fd fds (track_stands was t)),
      )

module _ (proto : Proto) (to_string : ℕ → Bytes) (node per_room : ℕ) where
  -- What a connection has sent, and what epoll watches of it.
  abbrev pub SettledIn : ConnState → ℕ → Conn → Kernel → Option (Bool × Bool) → Type 0
  SettledIn ConnState.none started c k i = (c ≡ empty_conn) × (i ≡ none)
  SettledIn connecting started c k i =
      (outgoing c k ≡ []) × ((i ≡ some (false, true)) × (c.index < started))
  SettledIn ready started c k i =
      (outgoing c k ≡ hello proto to_string node per_room [] c.index)
      × ((i ≡ some (true, not (is_empty c.pending))) × (c.index < started))
  SettledIn dead started c k i = true ≡ false

  abbrev pub Settled : ℕ → Conn → Kernel → Option (Bool × Bool) → Type 0
  Settled started c k i = SettledIn c.state started c k i

  pub later :
      (state : ConnState) (s t : ℕ) (c : Conn) (k : Kernel) (i : Option (Bool × Bool))
      → s ≤ t
      → SettledIn state s c k i
      → SettledIn state t c k i
  later ConnState.none s t c k i le h = h
  later connecting s t c k i le h = (h.0, (h.1.0, omega (arith, le, h.1.1)))
  later ready s t c k i le h = (h.0, (h.1.0, omega (arith, le, h.1.1)))
  later dead s t c k i le h = h

  pub record Balanced (max_conns max_inflight : ℕ) (p : Phase) : Type 0 where
    pub sum : p.started ≡ p.established + p.failed + p.inflight
    pub capped : p.started ≤ max_conns
    pub paced : p.inflight ≤ max_inflight
    pub reasons : total p.fail_reasons ≡ p.failed
    pub opening : (fds : List ℕ) × Tracks is_connecting p.inflight fds p.conns
    pub listed : Tracks is_ready p.established p.live p.conns
    pub each : (fd : ℕ) → Settled p.started (p.conns fd) (p.kernels fd) (p.interest fd)

  -- An edit of everything that stands at one fd.
  pub settle :
      (p : Phase) (fd started : ℕ) (c : Conn) (k : Kernel) (i : Option (Bool × Bool))
      → p.started ≤ started
      → Settled started c k i
      → ((fd : ℕ) → Settled p.started (p.conns fd) (p.kernels fd) (p.interest fd))
      → (x : ℕ) → Settled started (at p.conns fd c x) (at p.kernels fd k x) (at p.interest fd i x)
  settle p fd started c k i le new old x = elim (Bool-cases (x == fd)) [
    | inl e ↦
        rw (at_here p.conns fd c x e, at_here p.kernels fd k x e, at_here p.interest fd i x e) new
    | inr e ↦
        rw (at_else p.conns fd c x e, at_else p.kernels fd k x e, at_else p.interest fd i x e)
          (later (p.conns x).state p.started started (p.conns x) (p.kernels x) (p.interest x) le
            (old x))
  ]

  pub settle_conn :
      (p : Phase) (fd started : ℕ) (c : Conn) (i : Option (Bool × Bool))
      → p.started ≤ started
      → Settled started c (p.kernels fd) i
      → ((fd : ℕ) → Settled p.started (p.conns fd) (p.kernels fd) (p.interest fd))
      → (x : ℕ) → Settled started (at p.conns fd c x) (p.kernels x) (at p.interest fd i x)
  settle_conn p fd started c i le new old =
      subst (λ f. (x : ℕ) → Settled started (at p.conns fd c x) (f x) (at p.interest fd i x))
        (at_self p.kernels fd) (settle p fd started c (p.kernels fd) i le new old)

  pub settle_io :
      (p : Phase) (fd started : ℕ) (c : Conn) (k : Kernel)
      → p.started ≤ started
      → Settled started c k (p.interest fd)
      → ((fd : ℕ) → Settled p.started (p.conns fd) (p.kernels fd) (p.interest fd))
      → (x : ℕ) → Settled started (at p.conns fd c x) (at p.kernels fd k x) (p.interest x)
  settle_io p fd started c k le new old =
      subst (λ f. (x : ℕ) → Settled started (at p.conns fd c x) (at p.kernels fd k x) (f x))
        (at_self p.interest fd) (settle p fd started c k (p.interest fd) le new old)
