-- ===== src/Epoll/Loop/Marked.antt =====
-- server-epoll/server.cpp: flush_dirty, which flushes the connections that are on its list.
use io_uring_net_engine.Prelude.{
  ℕ, ◌≡◌, ◌≢◌, refl, sym, ◌∙◌, arith, Bool, true, false, List, [], ◌∷◌, ◌==◌, if◌then◌else◌,
  Bool-cases, inl, inr, ℕ_discrete, subst,
}
use io_uring_net_engine.Epoll.State.{Config, Server, conn_of, edit, member}
use io_uring_net_engine.Epoll.State.Edits.{find-edit_else}
use io_uring_net_engine.Epoll.Output.{flush_send}
use io_uring_net_engine.Epoll.Output.Flush.{kept_stream, stream-flush_send}
use io_uring_net_engine.Epoll.Output.Stream.{stream}
use io_uring_net_engine.Epoll.Output.Settles.{
  Settled, Flushed, Flushed-trans, Away, Away-Flushed, Away-Settled, closing-edit, flush_send-Away,
  flush_send-Settled, flush_send-Flushed,
}
use io_uring_net_engine.Epoll.Loop.{flush_one, flush_all}

module _ (cfg : Config) where
  one_of :
      (P : Server → Type 0) (b : Bool) (t u : Server)
      → (b ≡ true → P t)
      → P u
      → P (if b then t else u)
  one_of P true t u a c = a refl
  one_of P false t u a c = c

  flush_one-Settled : (s : Server) (fd : ℕ) → Settled (flush_one cfg s fd) fd
  unfolding flush_one
  flush_one-Settled s fd =
      one_of (λ t. Settled t fd) (conn_of s fd).closing _ _
        (λ e. inl (
          closing-edit (λ c. record c { dirty = false }) s.conns fd fd (λ _. refl) (λ _. refl) ∙ e))
        (flush_send-Settled cfg _ fd)

  flush_one-Away : (s : Server) (fd k : ℕ) → k ≢ fd → Away s (flush_one cfg s fd) k
  unfolding flush_one
  flush_one-Away s fd k ne =
      let same = find-edit_else fd (λ c. record c { dirty = false }) s.conns k (λ _. refl) ne in
      let clean = edit s fd (λ c. record c { dirty = false }) in
      let a = flush_send-Away cfg clean fd k ne in
      one_of (λ t. Away s t k) (conn_of s fd).closing clean (flush_send cfg clean fd)
        (λ _. (same, refl)) (a.0 ∙ same, a.1)

  flush_one-Flushed : (s : Server) (fd k : ℕ) → Flushed s (flush_one cfg s fd) k
  unfolding flush_one
  flush_one-Flushed s fd k = elim (ℕ_discrete k fd) [
    | no ne ↦ Away-Flushed s (flush_one cfg s fd) k (flush_one-Away s fd k ne)
    | yes e ↦ subst (λ i. Flushed s (flush_one cfg s fd) i) (sym e) own
  ]
    where
      clean : Server
      clean = edit s fd (λ c. record c { dirty = false })

      quiet : Flushed s clean fd
      quiet = record {
        reason = λ h. inl (
            sym
              (closing-edit (λ c. record c { dirty = false }) s.conns fd fd (λ _. refl) (λ _. refl))
            ∙ h);
        later = λ h. h;
      }

      own : Flushed s (flush_one cfg s fd) fd
      own =
          one_of (λ t. Flushed s t fd) (conn_of s fd).closing clean (flush_send cfg clean fd)
            (λ _. quiet) (Flushed-trans quiet (flush_send-Flushed cfg clean fd))

  flush_one-keeps : (s : Server) (fd k : ℕ) → Settled s k → Settled (flush_one cfg s fd) k
  flush_one-keeps s fd k h = elim (ℕ_discrete k fd) [
    | no ne ↦ Away-Settled s (flush_one cfg s fd) k (flush_one-Away s fd k ne) h
    | yes e ↦ subst (λ i. Settled (flush_one cfg s fd) i) (sym e) (flush_one-Settled s fd)
  ]

  stream-flush_one : (s : Server) (fd k : ℕ) → stream (flush_one cfg s fd) k ≡ stream s k
  unfolding flush_one
  stream-flush_one s fd k =
      let clean = edit s fd (λ c. record c { dirty = false }) in
      let same = kept_stream cfg s fd (λ c. record c { dirty = false }) k (λ _. refl) (λ _. refl) in
      one_of (λ t. stream t k ≡ stream s k) (conn_of s fd).closing clean (flush_send cfg clean fd)
        (λ _. same) (stream-flush_send cfg clean fd k ∙ same)

  flush_all-keeps :
      (xs : List ℕ) (s : Server) (k : ℕ) → Settled s k → Settled (flush_all cfg xs s) k
  unfolding flush_all
  flush_all-keeps [] s k h = h
  flush_all-keeps (x ∷ xs) s k h =
      flush_all-keeps xs (flush_one cfg s x) k (flush_one-keeps s x k h)

  pub flush_all-Settled :
      (xs : List ℕ) (s : Server) (k : ℕ) → member xs k ≡ true → Settled (flush_all cfg xs s) k
  unfolding flush_all member
  flush_all-Settled [] s k h = absurd (ground (arith, h))
  flush_all-Settled (x ∷ xs) s k h = elim (Bool-cases (x == k)) [
    | inl e ↦
        flush_all-keeps xs (flush_one cfg s x) k
          (subst (λ i. Settled (flush_one cfg s x) i) (ground (arith, e)) (flush_one-Settled s x))
    | inr e ↦ flush_all-Settled xs (flush_one cfg s x) k (ground (arith, e, h))
  ]

  pub flush_all-Flushed : (xs : List ℕ) (s : Server) (k : ℕ) → Flushed s (flush_all cfg xs s) k
  unfolding flush_all
  flush_all-Flushed [] s k = record { reason = inl; later = λ h. h }
  flush_all-Flushed (x ∷ xs) s k =
      Flushed-trans (flush_one-Flushed s x k) (flush_all-Flushed xs (flush_one cfg s x) k)

  pub stream-flush_all :
      (xs : List ℕ) (s : Server) (k : ℕ) → stream (flush_all cfg xs s) k ≡ stream s k
  unfolding flush_all
  stream-flush_all [] s k = refl
  stream-flush_all (x ∷ xs) s k = stream-flush_all xs (flush_one cfg s x) k ∙ stream-flush_one s x k
