-- ===== src/Epoll/Output/Stream.antt =====
-- server-epoll/server.cpp: the stream towards a client, which is what the kernel has taken for its fd
-- and what is queued behind.
use io_uring_net_engine.Prelude.{
  ℕ, ◌≤◌, ◌≡◌, refl, sym, ◌∙◌, ap, arith, true, some, List, [], ◌∷◌, ◌++◌, length, take, drop,
  append-nil, append_assoc, take-append-drop, Bool-cases, ℕ_discrete, inl, inr,
}
use mathlib.Core.Option.{some-injective}
use io_uring_net_engine.Epoll.State.{
  Bytes, same_bytes, Conn, Server, has_conn, conn_of, edit, lookup, store, discard,
}
use io_uring_net_engine.Epoll.State.Edits.{find-edit, find-edit_else, out-edit}
use io_uring_net_engine.Epoll.Output.{frame, tick_cap, transmit}

-- Packets, one behind the other.
abbrev pub encode : List (ℕ × Bytes) → Bytes
encode [] = []
encode (p ∷ ps) = frame p.0 p.1 ++ encode ps

-- No payload is over the cap of a tick's frame, so that its length fits its field.
abbrev pub Fits : List (ℕ × Bytes) → Type 0
Fits [] = Unit {0}
Fits (p ∷ ps) = (length p.1 ≤ tick_cap) × Fits ps

encode-append : (ps qs : List (ℕ × Bytes)) → encode (ps ++ qs) ≡ encode ps ++ encode qs
encode-append [] qs = refl
encode-append (p ∷ ps) qs =
    ap (λ b. frame p.0 p.1 ++ b) (encode-append ps qs)
    ∙ sym (append_assoc (frame p.0 p.1) (encode ps) (encode qs))

Fits-append : (ps qs : List (ℕ × Bytes)) → Fits ps → Fits qs → Fits (ps ++ qs)
Fits-append [] qs f g = g
Fits-append (p ∷ ps) qs f g = (f.0, Fits-append ps qs f.1 g)

-- What is sent is whole packets only.
abbrev pub Framed : Bytes → Type 0
Framed b = (ps : List (ℕ × Bytes)) × (Fits ps × (b ≡ encode ps))

abbrev pub stream : Server → ℕ → Bytes
stream s fd = s.wire fd ++ (conn_of s fd).out

-- Whole packets are added to every stream, and nothing else changes there.
abbrev pub Grows : Server → Server → Type 0
Grows s t =
    (fd : ℕ) → (ps : List (ℕ × Bytes)) × (Fits ps × (stream t fd ≡ stream s fd ++ encode ps))

pub same-Grows : (s t : Server) → ((fd : ℕ) → stream t fd ≡ stream s fd) → Grows s t
same-Grows s t e fd = ([], (tt, e fd ∙ sym (append-nil (stream s fd))))

pub trans-Grows : (s t u : Server) → Grows s t → Grows t u → Grows s u
trans-Grows s t u g h fd =
    let a = g fd in
    let b = h fd in
    (
      a.0 ++ b.0,
      (
        Fits-append a.0 b.0 a.1.0 b.1.0,
        b.1.1
            ∙ ap (λ l. l ++ encode b.0) a.1.1
            ∙ append_assoc (stream s fd) (encode a.0) (encode b.0)
            ∙ ap (λ l. stream s fd ++ l) (sym (encode-append a.0 b.0)),
      ),
    )

pub Grows-Framed : (s t : Server) (fd : ℕ) → Grows s t → Framed (stream s fd) → Framed (stream t fd)
Grows-Framed s t fd g f =
    let a = g fd in
    (
      f.0 ++ a.0,
      (
        Fits-append f.0 a.0 f.1.0 a.1.0,
        a.1.1 ∙ ap (λ l. l ++ encode a.0) f.1.1 ∙ sym (encode-append f.0 a.0),
      ),
    )

pub edit-Grows :
    (s : Server) (fd : ℕ) (f : Conn → Conn)
    → ((c : Conn) → (f c).fd ≡ c.fd)
    → ((c : Conn) → (f c).out ≡ c.out)
    → Grows s (edit s fd f)
edit-Grows s fd f key o =
    same-Grows s (edit s fd f) (λ k. ap (λ b. s.wire k ++ b) (out-edit f s.conns fd k key o))

-- A packet at the end of one queue.
pub append-Grows :
    (s : Server) (fd type : ℕ) (payload : Bytes)
    → has_conn s.conns fd ≡ true
    → length payload ≤ tick_cap
    → Grows s (edit s fd (λ c. record c { out = c.out ++ frame type payload }))
append-Grows s fd type payload h fit k = elim (ℕ_discrete k fd) [
  | yes e ↦ (
    (type, payload) ∷ [],
    (
      (fit, tt),
      ap (λ i. stream (edit s fd add) i) e
          ∙ ap (λ c. s.wire fd ++ c.out) (find-edit fd add s.conns (λ _. refl) h)
          ∙ ap (λ p. s.wire fd ++ ((conn_of s fd).out ++ p)) (sym (append-nil (frame type payload)))
          ∙ sym (append_assoc (s.wire fd) (conn_of s fd).out (encode ((type, payload) ∷ [])))
          ∙ ap (λ i. stream s i ++ encode ((type, payload) ∷ [])) (sym e),
    ),
  )
  | no ne ↦ (
    [],
    (
      tt,
      ap (λ c. s.wire k ++ c.out) (find-edit_else fd add s.conns k (λ _. refl) ne)
          ∙ sym (append-nil (stream s k)),
    ),
  )
]
  where
    add : Conn → Conn
    add c = record c { out = c.out ++ frame type payload }

-- Bytes that move from the queue to the kernel.
pub move_stream :
    (s : Server) (fd n : ℕ)
    → has_conn s.conns fd ≡ true
    → (k : ℕ) → stream (transmit s fd n) k ≡ stream s k
move_stream s fd n h k = elim (ℕ_discrete k fd) [
  | yes e ↦ ap (λ i. stream (transmit s fd n) i) e ∙ here ∙ ap (λ i. stream s i) (sym e)
  | no ne ↦ rw (find-edit_else fd cut s.conns k (λ _. refl) ne) (ground arith)
]
  where
    cut : Conn → Conn
    cut c = record c { out = drop n c.out }

    here : stream (transmit s fd n) fd ≡ stream s fd
    here = rw (find-edit fd cut s.conns (λ _. refl) h) (
        ground (
          arith,
          append_assoc (s.wire fd) (take n (conn_of s fd).out) (drop n (conn_of s fd).out),
          take-append-drop n (conn_of s fd).out,
        ))

pub move-Grows : (s : Server) (fd n : ℕ) → has_conn s.conns fd ≡ true → Grows s (transmit s fd n)
move-Grows s fd n h = same-Grows s (transmit s fd n) (move_stream s fd n h)

-- The buffers of the rooms.
abbrev pub AllBufs : List (Bytes × Bytes) → Type 0
AllBufs [] = Unit {0}
AllBufs (e ∷ es) = (length e.1 ≤ tick_cap) × AllBufs es

pub AllBufs-store :
    (es : List (Bytes × Bytes)) (k v : Bytes)
    → length v ≤ tick_cap
    → AllBufs es
    → AllBufs (store es k v)
unfolding store
AllBufs-store [] k v h a = (h, tt)
AllBufs-store (e ∷ es) k v h a = elim (Bool-cases (same_bytes e.0 k)) [
  | inl y ↦ rw y (h, a.1)
  | inr n ↦ rw n (a.0, AllBufs-store es k v h a.1)
]

pub AllBufs-discard : (es : List (Bytes × Bytes)) (k : Bytes) → AllBufs es → AllBufs (discard es k)
unfolding discard
AllBufs-discard [] k a = tt
AllBufs-discard (e ∷ es) k a = elim (Bool-cases (same_bytes e.0 k)) [
  | inl y ↦ rw y a.1
  | inr n ↦ rw n (a.0, AllBufs-discard es k a.1)
]

pub AllBufs-lookup :
    (es : List (Bytes × Bytes)) (k v : Bytes)
    → AllBufs es
    → lookup es k ≡ some v
    → length v ≤ tick_cap
unfolding lookup
AllBufs-lookup [] k v a h = absurd (ground (arith, h))
AllBufs-lookup (e ∷ es) k v a h = elim (Bool-cases (same_bytes e.0 k)) [
  | inl y ↦ rw (sym (some-injective _ _ (rw y at h))) a.0
  | inr n ↦ AllBufs-lookup es k v a.1 (rw n at h)
]
