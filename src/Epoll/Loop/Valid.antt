-- ===== src/Epoll/Loop/Valid.antt =====
-- server-epoll/server.cpp: what holds of the server between any two calls of a turn. The accept loop
-- and the flush pass keep it.
use io_uring_net_engine.Prelude.{
  ℕ, suc, ◌≤◌, ◌≡◌, refl, sym, ◌∙◌, ap, arith, Bool, true, false, not, List, [], ◌∷◌, ◌++◌, length,
  leb, if◌then◌else◌, ℕ_discrete, subst,
}
use io_uring_net_engine.Tick.{session_add}
use io_uring_net_engine.Epoll.State.{
  Conn, fresh_conn, Config, Server, has_conn, find_conn, at, member,
}
use io_uring_net_engine.Epoll.Output.Stream.{Framed, stream, Grows-Framed}
use io_uring_net_engine.Epoll.Output.Evolves.{Sound}
use io_uring_net_engine.Epoll.Output.Keeps.{has-fds, Keeps, fds}
use io_uring_net_engine.Epoll.Loop.{Accepted, connected, retry, no_fds, admit, on_accept}

-- No fd is there twice.
abbrev pub Distinct : List ℕ → Type 0
Distinct [] = Unit {0}
Distinct (x ∷ xs) = (member xs x ≡ false) × Distinct xs

pub record Valid (cfg : Config) (s : Server) : Type 0 where
  pub sound : Sound s
  pub distinct : Distinct (fds s.conns)
  pub within : length (fds s.conns) ≤ cfg.max_conns
  pub framed : (fd : ℕ) → has_conn s.conns fd ≡ true → Framed (stream s fd)

module _ (cfg : Config) where
  pub keep-Valid : (s t : Server) → Keeps s t → Valid cfg s → Valid cfg t
  keep-Valid s t k v = record {
    sound = k.sound v.sound;
    distinct = rw k.same_fds v.distinct;
    within = rw k.same_fds v.within;
    framed = λ fd h. Grows-Framed s t fd k.grows (
        v.framed fd (
          sym (has-fds s.conns fd)
          ∙ ap (λ l. member l fd) (sym k.same_fds)
          ∙ has-fds t.conns fd
          ∙ h));
  }

  length-fds : (cs : List Conn) → length (fds cs) ≡ length cs
  length-fds [] = refl
  length-fds (c ∷ cs) = ap suc (length-fds cs)

  choose-Valid :
      (b : Bool) (s t : Server)
      → (b ≡ true → Valid cfg s)
      → (b ≡ false → Valid cfg t)
      → Valid cfg (if b then s else t)
  choose-Valid true s t v w = v refl
  choose-Valid false s t v w = w refl

  fresh-Framed :
      (s : Server) (fd : ℕ)
      → ((k : ℕ) → has_conn s.conns k ≡ true → Framed (stream s k))
      → (k : ℕ) → has_conn (fresh_conn fd ∷ s.conns) k ≡ true
      → Framed (at s.wire fd [] k ++ (find_conn (fresh_conn fd ∷ s.conns) k).out)
  unfolding has_conn find_conn
  fresh-Framed s fd f k h = elim (ℕ_discrete k fd) [
    | yes e ↦ rw e ([], (tt, ground arith))
    | no ne ↦ subst Framed (ground (arith, ne)) (f k (ground (arith, ne, h)))
  ]

  enter-Valid :
      (s : Server) (fd : ℕ)
      → Valid cfg s
      → leb cfg.max_conns (length s.conns) ≡ false
      → (b : Bool) → has_conn s.conns fd ≡ b
      → Valid cfg (record s {
        conns = if b then s.conns else fresh_conn fd ∷ s.conns;
        tick = session_add s.tick fd;
        wire = if b then s.wire else at s.wire fd [];
      })
  enter-Valid s fd v room true e = record {
    sound = record {
      bounded = v.sound.bounded;
      recorded = v.sound.recorded;
      listed = v.sound.listed;
      buffers = v.sound.buffers;
    };
    distinct = v.distinct;
    within = v.within;
    framed = v.framed;
  }
  enter-Valid s fd v room false e = record {
    sound = record {
      bounded = (omega arith, v.sound.bounded);
      recorded = (refl, v.sound.recorded);
      listed = (refl, v.sound.listed);
      buffers = v.sound.buffers;
    };
    distinct = (has-fds s.conns fd ∙ e, v.distinct);
    within = ground (arith, room, length-fds s.conns);
    framed = fresh-Framed s fd v.framed;
  }

  admit-Valid :
      (s : Server) (fd : ℕ) (add_ok : Bool) → Valid cfg s → Valid cfg (admit cfg s fd add_ok)
  unfolding admit
  admit-Valid s fd add_ok v =
      choose-Valid (leb cfg.max_conns (length s.conns)) s _ (λ _. v)
        (λ room.
          choose-Valid (not add_ok) s _ (λ _. v)
            (λ _. enter-Valid s fd v room (has_conn s.conns fd) refl))

  pub on_accept-Valid :
      (rs : List Accepted) (s : Server) → Valid cfg s → Valid cfg (on_accept cfg rs s)
  unfolding on_accept
  on_accept-Valid [] s v = v
  on_accept-Valid (connected fd add_ok ∷ rs) s v =
      on_accept-Valid rs (admit cfg s fd add_ok) (admit-Valid s fd add_ok v)
  on_accept-Valid (retry ∷ rs) s v = on_accept-Valid rs s v
  on_accept-Valid (no_fds reopened ∷ rs) s v =
      choose-Valid s.reserve _ s
        (λ _. record {
          sound = record {
            bounded = v.sound.bounded;
            recorded = v.sound.recorded;
            listed = v.sound.listed;
            buffers = v.sound.buffers;
          };
          distinct = v.distinct;
          within = v.within;
          framed = v.framed;
        })
        (λ _. v)
  on_accept-Valid (Accepted.failed ∷ rs) s v = v
