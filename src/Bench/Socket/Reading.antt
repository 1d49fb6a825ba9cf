-- ===== src/Bench/Socket/Reading.antt =====
-- client-bench/src/netutil.cpp: read_available.
use io_uring_net_engine.Prelude.{
  ℕ, zero, suc, ◌+◌, ◌-◌, ◌≤◌, ◌≡◌, refl, sym, ◌∙◌, ap, arith, Bool, true, false, not, List, [],
  ◌∷◌, ◌++◌, append_assoc, length, length-append, length-take, take, drop, take-append-drop, ltb,
  ◌==◌, if◌then◌else◌,
}
use io_uring_net_engine.Epoll.State.{Bytes, is_empty, Received, arrived, shut}
use io_uring_net_engine.Bench.Conn.{Conn, rx_cap}
use io_uring_net_engine.Bench.Socket.{Kernel, put_back, left_behind, read_loop, read_available}

-- The bytes that recv has yet to give.
abbrev pub offered : List Received → Bytes
offered [] = []
offered (arrived bs ∷ rs) = bs ++ offered rs
offered (shut ∷ rs) = offered rs
offered (Received.interrupted ∷ rs) = offered rs
offered (Received.failed ∷ rs) = offered rs

-- What a slot with `room` free bytes makes of the socket: true when it has been emptied before it
-- shuts down, fails or fills the slot.
abbrev pub emptied : ℕ → List Received → Bool
emptied room [] = not (room == 0)
emptied room (arrived bs ∷ rs) =
    if room == 0 then false else if is_empty bs then false else ltb (length bs) room
emptied room (shut ∷ rs) = false
emptied room (Received.interrupted ∷ rs) = emptied room rs
emptied room (Received.failed ∷ rs) = false

abbrev Result : Type 0
Result = Bool × (Conn × (ℕ × Kernel))

-- From a slot, a counter and what recv has yet to give.
pub record Read (rx : Bytes) (bytes_in : ℕ) (recvs : List Received) (r : Result) : Type 0 where
  pub in_order : r.1.0.rx ++ offered r.1.1.1.recvs ≡ rx ++ offered recvs
  pub bounded : length r.1.0.rx ≤ rx_cap
  pub counted : r.1.1.0 + length rx ≡ bytes_in + length r.1.0.rx
  pub alive : r.0 ≡ emptied (rx_cap - length rx) recvs

-- The bytes that one recv gives.
short_take : (room : ℕ) (bs : Bytes) → ltb (length (take room bs)) room ≡ true → take room bs ≡ bs
short_take zero bs h = absurd (ground (arith, h))
short_take (suc n) [] h = refl
short_take (suc n) (b ∷ bs) h = ap (λ t. b ∷ t) (short_take n bs (ground (arith, h)))

emptied-arrived :
    (room : ℕ) (bs : Bytes) (rs : List Received)
    → (room == 0) ≡ false
    → emptied room (arrived bs ∷ rs)
      ≡ (if is_empty (take room bs) then false else ltb (length (take room bs)) room)
emptied-arrived zero bs rs h = absurd (ground (arith, h))
emptied-arrived (suc n) [] rs h = rw h refl
emptied-arrived (suc n) (b ∷ bs) rs h = ground (arith, length-take n bs)

offered-put_back : (bs : Bytes) (rs : List Received) → offered (put_back bs rs) ≡ bs ++ offered rs
offered-put_back [] rs = refl
offered-put_back (b ∷ bs) rs = refl

no_bytes : (room : ℕ) (bs : Bytes) → (room == 0) ≡ false → is_empty (take room bs) ≡ true → bs ≡ []
no_bytes zero bs h e = absurd (ground (arith, h))
no_bytes (suc n) [] h e = refl
no_bytes (suc n) (b ∷ bs) h e = absurd (ground (arith, e))

full_read :
    (rs : List Received) (c : Conn) (bytes_in : ℕ) (k : Kernel)
    → rx_cap - length c.rx ≡ 0
    → read_loop rs c bytes_in k ≡ (false, (c, (bytes_in, record k { recvs = rs })))
unfolding read_loop
full_read [] c bytes_in k h = rw h refl
full_read (r ∷ rs) c bytes_in k h = rw (h, read_loop) refl

module _ (c : Conn) (bytes_in : ℕ) (k : Kernel) where
  -- The slot as it was.
  unread :
      (b : Bool) (rs gone : List Received)
      → length c.rx ≤ rx_cap
      → offered gone ≡ offered rs
      → b ≡ emptied (rx_cap - length c.rx) rs
      → Read c.rx bytes_in rs (b, (c, (bytes_in, record k { recvs = gone })))
  unread b rs gone fits same e = record {
    in_order = ap (λ t. c.rx ++ t) same;
    bounded = fits;
    counted = refl;
    alive = e;
  }

  emptied_full :
      (r : Received) (rs : List Received)
      → (rx_cap - length c.rx == 0) ≡ true
      → false ≡ emptied (rx_cap - length c.rx) (r ∷ rs)
  emptied_full (arrived bs) rs e = rw e refl
  emptied_full shut rs e = refl
  emptied_full Received.interrupted rs e = all rs
    where
      all : (rs : List Received) → false ≡ emptied (rx_cap - length c.rx) rs
      all [] = rw e refl
      all (arrived bs ∷ rs) = rw e refl
      all (shut ∷ rs) = refl
      all (Received.interrupted ∷ rs) = all rs
      all (Received.failed ∷ rs) = refl
  emptied_full Received.failed rs e = refl

  -- A read of some bytes that leaves the slot with room.
  short-Read :
      (bs : Bytes) (rs : List Received)
      → length c.rx ≤ rx_cap
      → (rx_cap - length c.rx == 0) ≡ false
      → is_empty (take (rx_cap - length c.rx) bs) ≡ false
      → ltb (length (take (rx_cap - length c.rx) bs)) (rx_cap - length c.rx) ≡ true
      → Read c.rx bytes_in (arrived bs ∷ rs) (
        true,
        (
          record c { rx = c.rx ++ take (rx_cap - length c.rx) bs },
          (bytes_in + length (take (rx_cap - length c.rx) bs), record k { recvs = rs }),
        ),
      )
  short-Read bs rs fits has some_bytes few = record {
    in_order =
        append_assoc c.rx (take (rx_cap - length c.rx) bs) (offered rs)
        ∙ ap (λ t. c.rx ++ (t ++ offered rs)) (short_take (rx_cap - length c.rx) bs few);
    bounded = ground (arith, length-append c.rx (take (rx_cap - length c.rx) bs), few, fits);
    counted = omega (arith, length-append c.rx (take (rx_cap - length c.rx) bs));
    alive = sym (emptied-arrived (rx_cap - length c.rx) bs rs has ∙ rw (some_bytes, few) refl);
  }

  filled-Read :
      (bs : Bytes) (rs : List Received)
      → length c.rx ≤ rx_cap
      → (rx_cap - length c.rx == 0) ≡ false
      → is_empty (take (rx_cap - length c.rx) bs) ≡ false
      → ltb (length (take (rx_cap - length c.rx) bs)) (rx_cap - length c.rx) ≡ false
      → Read c.rx bytes_in (arrived bs ∷ rs) (
          left_behind (drop (rx_cap - length c.rx) bs) (
            read_loop rs
              (record c { rx = c.rx ++ take (rx_cap - length c.rx) bs })
              (bytes_in + length (take (rx_cap - length c.rx) bs))
              k))
  filled-Read bs rs fits has some_bytes full =
      rw
        (full_read rs (record c { rx = c.rx ++ take (rx_cap - length c.rx) bs })
          (bytes_in + length (take (rx_cap - length c.rx) bs)) k no_room)
        record {
          in_order =
              ap (λ t. (c.rx ++ take (rx_cap - length c.rx) bs) ++ t)
                (offered-put_back (drop (rx_cap - length c.rx) bs) rs)
              ∙ append_assoc c.rx (take (rx_cap - length c.rx) bs)
                  (drop (rx_cap - length c.rx) bs ++ offered rs)
              ∙ ap (λ t. c.rx ++ t)
                  (sym (
                      append_assoc (take (rx_cap - length c.rx) bs) (drop (rx_cap - length c.rx) bs)
                        (offered rs))
                    ∙ ap (λ t. t ++ offered rs) (take-append-drop (rx_cap - length c.rx) bs));
          bounded = omega (arith, fits, filled);
          counted = omega (arith, length-append c.rx (take (rx_cap - length c.rx) bs));
          alive =
              sym (emptied-arrived (rx_cap - length c.rx) bs rs has ∙ rw (some_bytes, full) refl);
        }
    where
      filled : length (c.rx ++ take (rx_cap - length c.rx) bs) ≡ rx_cap
      filled = ground (
        arith,
        full,
        fits,
        length-append c.rx (take (rx_cap - length c.rx) bs),
        length-take (rx_cap - length c.rx) bs,
      )

      no_room : rx_cap - length (c.rx ++ take (rx_cap - length c.rx) bs) ≡ 0
      no_room = omega (arith, filled)

-- One of two results of a test.
chosen :
    {A : Type 0} (P : A → Type 0) (b : Bool) (x y : A)
    → (b ≡ true → P x)
    → (b ≡ false → P y)
    → P (if b then x else y)
chosen P true x y p q = p refl
chosen P false x y p q = q refl

module _ (k : Kernel) where
  pub read_loop-Read :
      (rs : List Received) (c : Conn) (bytes_in : ℕ)
      → length c.rx ≤ rx_cap
      → Read c.rx bytes_in rs (read_loop rs c bytes_in k)
  unfolding read_loop
  read_loop-Read [] c bytes_in fits =
      chosen (λ r. Read c.rx bytes_in [] r) (rx_cap - length c.rx == 0)
        (false, (c, (bytes_in, record k { recvs = [] })))
        (true, (c, (bytes_in, record k { recvs = [] })))
        (λ e. unread c bytes_in k false [] [] fits refl (rw e refl))
        (λ e. unread c bytes_in k true [] [] fits refl (rw e refl))
  read_loop-Read (shut ∷ rs) c bytes_in fits =
      chosen (λ r. Read c.rx bytes_in (shut ∷ rs) r) (rx_cap - length c.rx == 0)
        (false, (c, (bytes_in, record k { recvs = shut ∷ rs })))
        (false, (c, (bytes_in, record k { recvs = rs })))
        (λ e. unread c bytes_in k false (shut ∷ rs) (shut ∷ rs) fits refl refl)
        (λ e. unread c bytes_in k false (shut ∷ rs) rs fits refl refl)
  read_loop-Read (Received.failed ∷ rs) c bytes_in fits =
      chosen (λ r. Read c.rx bytes_in (Received.failed ∷ rs) r) (rx_cap - length c.rx == 0)
        (false, (c, (bytes_in, record k { recvs = Received.failed ∷ rs })))
        (false, (c, (bytes_in, record k { recvs = rs })))
        (λ e.
          unread c bytes_in k false (Received.failed ∷ rs) (Received.failed ∷ rs) fits refl refl)
        (λ e. unread c bytes_in k false (Received.failed ∷ rs) rs fits refl refl)
  read_loop-Read (Received.interrupted ∷ rs) c bytes_in fits =
      chosen (λ r. Read c.rx bytes_in (Received.interrupted ∷ rs) r) (rx_cap - length c.rx == 0)
        (false, (c, (bytes_in, record k { recvs = Received.interrupted ∷ rs })))
        (read_loop rs c bytes_in k)
        (λ e.
          unread c bytes_in k false (Received.interrupted ∷ rs) (Received.interrupted ∷ rs) fits
            refl (emptied_full c bytes_in k Received.interrupted rs e))
        (λ e.
          let r = read_loop-Read rs c bytes_in fits in
          record {
            in_order = r.in_order;
            bounded = r.bounded;
            counted = r.counted;
            alive = r.alive;
          })
  read_loop-Read (arrived bs ∷ rs) c bytes_in fits =
      let room = rx_cap - length c.rx in
      let got = take room bs in
      let after = record c { rx = c.rx ++ got } in
      chosen (λ r. Read c.rx bytes_in (arrived bs ∷ rs) r) (room == 0)
        (false, (c, (bytes_in, record k { recvs = arrived bs ∷ rs })))
        (if is_empty got
          then (false, (c, (bytes_in, record k { recvs = rs })))
          else if ltb (length got) room
          then (true, (after, (bytes_in + length got, record k { recvs = rs })))
          else left_behind (drop room bs) (read_loop rs after (bytes_in + length got) k))
        (λ e.
          unread c bytes_in k false (arrived bs ∷ rs) (arrived bs ∷ rs) fits refl
            (emptied_full c bytes_in k (arrived bs) rs e))
        (λ has.
          chosen (λ r. Read c.rx bytes_in (arrived bs ∷ rs) r) (is_empty got)
            (false, (c, (bytes_in, record k { recvs = rs })))
            (if ltb (length got) room
              then (true, (after, (bytes_in + length got, record k { recvs = rs })))
              else left_behind (drop room bs) (read_loop rs after (bytes_in + length got) k))
            (λ e.
              unread c bytes_in k false (arrived bs ∷ rs) rs fits
                (sym (ap (λ t. t ++ offered rs) (no_bytes room bs has e)))
                (sym (emptied-arrived room bs rs has ∙ rw e refl)))
            (λ some_bytes.
              chosen (λ r. Read c.rx bytes_in (arrived bs ∷ rs) r) (ltb (length got) room)
                (true, (after, (bytes_in + length got, record k { recvs = rs })))
                (left_behind (drop room bs) (read_loop rs after (bytes_in + length got) k))
                (short-Read c bytes_in k bs rs fits has some_bytes)
                (filled-Read c bytes_in k bs rs fits has some_bytes)))

-- Whatever recv returns: read_available puts the bytes behind those in the slot, in their order and
-- without losing one, never beyond the slot's 64 KiB, and counts them. It returns true exactly when
-- the socket has been emptied before it shuts down, fails or fills the slot.
pub read_available-Read :
    (c : Conn) (bytes_in : ℕ) (k : Kernel)
    → length c.rx ≤ rx_cap
    → Read c.rx bytes_in k.recvs (read_available c bytes_in k)
unfolding read_available
read_available-Read c bytes_in k fits = read_loop-Read k k.recvs c bytes_in fits
