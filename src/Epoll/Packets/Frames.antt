-- ===== src/Epoll/Packets/Frames.antt =====
-- server-epoll/server.cpp: parse_frames against the packets that a client has sent.
use io_uring_net_engine.Prelude.{
  ℕ, zero, suc, ◌+◌, ◌≤◌, ◌<◌, ◌≡◌, refl, sym, ◌∙◌, ap, arith, Bool, true, false, ◌&&◌, ◌||◌, List,
  [], ◌∷◌, ◌++◌, append_assoc, length, length-append, take, drop, take-append, drop-append, ltb,
  leb, if◌then◌else◌, Bool-cases, inl, inr,
}
use io_uring_net_engine.Prelude.Word.{u16_mod}
use io_uring_net_engine.Prelude.Bytes.{le_value}
use io_uring_net_engine.Epoll.State.{Bytes, Conn, Config, Server, has_conn, member, conn_of, edit}
use io_uring_net_engine.Epoll.State.Edits.{edit-agree, find-edit, find-inputs, input_of, has_open}
use io_uring_net_engine.Epoll.Output.{frame, header_size, max_payload}
use io_uring_net_engine.Epoll.Output.Stream.{encode}
use io_uring_net_engine.Epoll.Output.Keeps.{Evolves-Keeps, has-fds}
use io_uring_net_engine.Epoll.Packets.{handle_packet, parse_loop, parse_frames}
use io_uring_net_engine.Epoll.Packets.Steps.{handle_packet-Evolves}

-- Less than a packet: a part of a header, or a header with a part of the payload that it announces.
abbrev pub partial : Bytes → Bool
partial rest =
    let len = le_value (take 2 rest) in
    ltb (length rest) header_size || (leb len max_payload && ltb (length rest) (header_size + len))

-- Packets that a client may send.
abbrev pub Sendable : List (ℕ × Bytes) → Type 0
Sendable [] = Unit {0}
Sendable (p ∷ ps) = ((p.0 < u16_mod) × (length p.1 ≤ max_payload)) × Sendable ps

-- Packets handled in their order, until the connection is closing; `rest` has been read behind them.
abbrev pub serve : Config → List (ℕ × Bytes) → Bytes → Server → ℕ → Server
serve cfg [] rest s fd = s
serve cfg (p ∷ ps) rest s fd =
    let done =
      edit (handle_packet cfg s fd p.0 p.1) fd (λ c. record c { in_buf = encode ps ++ rest }) in
    let others = serve cfg ps rest done fd in if (conn_of s fd).closing then s else others

-- The fields of a packet at the front of a buffer.
module _ (type : ℕ) (payload more : Bytes) where
  length-frame : length (frame type payload) ≡ header_size + length payload
  length-frame = omega arith

  front_len :
      length payload ≤ max_payload → le_value (take 2 (frame type payload ++ more)) ≡ length payload
  front_len h = omega (arith, h)

  front_type : type < u16_mod → le_value (take 2 (drop 2 (frame type payload ++ more))) ≡ type
  front_type h = omega (arith, h)

  front_payload : take (length payload) (drop header_size (frame type payload ++ more)) ≡ payload
  front_payload = take-append (length payload) payload more refl

  front_rest : drop (header_size + length payload) (frame type payload ++ more) ≡ more
  front_rest = drop-append (header_size + length payload) (frame type payload) more length-frame

if_none {ℓ} :
    {A : Type ℓ} (a b c : Bool) (x y z w : A)
    → a ≡ false
    → b ≡ false
    → c ≡ false
    → (if a then x else if b then y else if c then z else w) ≡ w
if_none a b c x y z w e f g = rw (e, f, g) refl

module _ (cfg : Config) (fd : ℕ) where
  -- A packet's handler leaves what is unread, and the connection.
  handled_input :
      (s : Server) (type : ℕ) (payload : Bytes)
      → (conn_of (handle_packet cfg s fd type payload) fd).in_buf ≡ (conn_of s fd).in_buf
  handled_input s type payload =
      let t = handle_packet cfg s fd type payload in
      find-inputs t.conns fd
      ∙ ap (λ l. input_of l fd) (handle_packet-Evolves cfg s fd type payload).same_inputs
      ∙ sym (find-inputs s.conns fd)

  handled_here :
      (s : Server) (type : ℕ) (payload : Bytes)
      → has_conn (handle_packet cfg s fd type payload).conns fd ≡ has_conn s.conns fd
  handled_here s type payload =
      let t = handle_packet cfg s fd type payload in
      sym (has-fds t.conns fd)
      ∙ ap (λ l. member l fd) (Evolves-Keeps (handle_packet-Evolves cfg s fd type payload)).same_fds
      ∙ has-fds s.conns fd

  next :
      (s : Server) (p : ℕ × Bytes) (ps : List (ℕ × Bytes)) (rest : Bytes)
      → Sendable (p ∷ ps)
      → (conn_of s fd).in_buf ≡ frame p.0 p.1 ++ (encode ps ++ rest)
      → let b = (conn_of s fd).in_buf in
        let len = le_value (take 2 b) in
        edit
          (handle_packet cfg s fd (le_value (take 2 (drop 2 b))) (take len (drop header_size b)))
          fd
          (λ c. record c { in_buf = drop (header_size + len) c.in_buf })
        ≡ edit (handle_packet cfg s fd p.0 p.1) fd (λ c. record c { in_buf = encode ps ++ rest })
  next s p ps rest ok h =
      rw
        (
          h,
          front_len p.0 p.1 (encode ps ++ rest) ok.0.1,
          front_type p.0 p.1 (encode ps ++ rest) ok.0.0,
          front_payload p.0 p.1 (encode ps ++ rest),
        )
        (ap (λ cs. record (handle_packet cfg s fd p.0 p.1) { conns = cs })
          (edit-agree (λ c. record c { in_buf = drop (header_size + length p.1) c.in_buf })
            (λ c. record c { in_buf = encode ps ++ rest }) (handle_packet cfg s fd p.0 p.1).conns fd
            (ap (λ b. record (conn_of (handle_packet cfg s fd p.0 p.1) fd) { in_buf = b })
              (ap (λ b. drop (header_size + length p.1) b) (handled_input s p.0 p.1 ∙ h)
                ∙ front_rest p.0 p.1 (encode ps ++ rest)))))

  stop_closing :
      (fuel : ℕ) (s : Server) → (conn_of s fd).closing ≡ true → parse_loop cfg (suc fuel) s fd ≡ s
  unfolding parse_loop
  stop_closing fuel s h = rw h refl

  stop_partial :
      (fuel : ℕ) (s : Server)
      → partial (conn_of s fd).in_buf ≡ true
      → parse_loop cfg (suc fuel) s fd ≡ s
  unfolding parse_loop
  stop_partial fuel s h =
      four _ _ (conn_of s fd).closing (ltb (length (conn_of s fd).in_buf) header_size)
        (ltb max_payload (le_value (take 2 (conn_of s fd).in_buf)))
        (leb (le_value (take 2 (conn_of s fd).in_buf)) max_payload)
        (ltb (length (conn_of s fd).in_buf) (header_size + le_value (take 2 (conn_of s fd).in_buf)))
        h (ground arith)
    where
      four :
          (t u : Server) (a b c c' d : Bool)
          → (b || (c' && d)) ≡ true
          → (c' ≡ true → c ≡ false)
          → (if a || b then s else if c then t else if d then s else u) ≡ s
      four t u true b c c' d e f = refl
      four t u false true c c' d e f = refl
      four t u false false c true true e f = rw (f refl) refl
      four t u false false c true false e f = absurd (ground (arith, e))
      four t u false false c false d e f = absurd (ground (arith, e))

  one_more :
      (fuel : ℕ) (s : Server) (p : ℕ × Bytes) (ps : List (ℕ × Bytes)) (rest : Bytes)
      → Sendable (p ∷ ps)
      → (conn_of s fd).closing ≡ false
      → (conn_of s fd).in_buf ≡ frame p.0 p.1 ++ (encode ps ++ rest)
      → parse_loop cfg (suc fuel) s fd
        ≡ parse_loop cfg fuel
            (edit
              (handle_packet cfg s fd p.0 p.1)
              fd
              (λ c. record c { in_buf = encode ps ++ rest }))
            fd
  unfolding parse_loop
  one_more fuel s p ps rest ok live h =
      let b = (conn_of s fd).in_buf in
      let len = le_value (take 2 b) in
      let sized = length-append (frame p.0 p.1) (encode ps ++ rest) in
      let len_is = ap (λ x. le_value (take 2 x)) h ∙ front_len p.0 p.1 (encode ps ++ rest) ok.0.1 in
      let long = ap length h in
      if_none ((conn_of s fd).closing || ltb (length b) header_size) (ltb max_payload len)
        (ltb (length b) (header_size + len)) _ _ _ _
        (ground (arith, live, long, sized, length-frame p.0 p.1 (encode ps ++ rest)))
        (ground (arith, len_is, ok.0.1))
        (ground (arith, len_is, long, sized, length-frame p.0 p.1 (encode ps ++ rest)))
      ∙ ap (λ t. parse_loop cfg fuel t fd) (next s p ps rest ok h)

  parse_loop-serve :
      (ps : List (ℕ × Bytes)) (rest : Bytes) (fuel : ℕ) (s : Server)
      → Sendable ps
      → partial rest ≡ true
      → (conn_of s fd).in_buf ≡ encode ps ++ rest
      → length ps < fuel
      → parse_loop cfg fuel s fd ≡ serve cfg ps rest s fd
  parse_loop-serve ps rest zero s ok part h more = elim more [ ]
  parse_loop-serve [] rest (suc fuel) s ok part h more = stop_partial fuel s (ap partial h ∙ part)
  parse_loop-serve (p ∷ ps) rest (suc fuel) s ok part h more =
      elim (Bool-cases (conn_of s fd).closing) [
        | inl e ↦ rw e (stop_closing fuel s e)
        | inr e ↦
            (let fed = h ∙ append_assoc (frame p.0 p.1) (encode ps) rest in
              let handled = handle_packet cfg s fd p.0 p.1 in
              let feed : Conn → Conn = λ c. record c { in_buf = encode ps ++ rest } in
              rw e (
                one_more fuel s p ps rest ok e fed
                ∙ parse_loop-serve ps rest fuel (edit handled fd feed) ok.1 part
                    (ap (λ c. c.in_buf)
                      (find-edit fd feed handled.conns (λ _. refl)
                        (handled_here s p.0 p.1 ∙ has_open fd s.conns e)))
                    (omega (arith, more))))
      ]

  count_le : (ps : List (ℕ × Bytes)) (rest : Bytes) → length ps ≤ length (encode ps ++ rest)
  count_le [] rest = omega arith
  count_le (p ∷ ps) rest = omega (
    arith,
    count_le ps rest,
    length-append p.1 (encode ps),
    length-append (p.1 ++ encode ps) rest,
    length-append (encode ps) rest,
  )

  -- When what has been read from a connection is packets that a client may send and then less than
  -- one more, parse_frames handles exactly these packets, in their order and with the types and the
  -- payloads that were sent, until the connection is closing, and leaves the rest unread.
  pub parse_frames-serve :
      (ps : List (ℕ × Bytes)) (rest : Bytes) (s : Server)
      → Sendable ps
      → partial rest ≡ true
      → (conn_of s fd).in_buf ≡ encode ps ++ rest
      → parse_frames cfg s fd ≡ serve cfg ps rest s fd
  unfolding parse_frames
  parse_frames-serve ps rest s ok part h =
      parse_loop-serve ps rest (length (conn_of s fd).in_buf + 1) s ok part h
        (omega (arith, ap length h, count_le ps rest))
