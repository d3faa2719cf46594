-- ===== src/Connection/Bounds.antt =====
-- The bounds of a connection's indices, through the two loops of `handleConnectionEvent`.
-- `Φ` is any fact about the thread's `Io` that calls on the connection's descriptor keep.
use linux_tcp_servers.Common.{
  ℕ, ℤ, zero, suc, ◌-◌, ◌≤◌, ◌<◌, ◌≡◌, refl, inl, inr, Bool, true, false, leb, ◌+◌, subst, sym,
  List, [], ◌∷◌, some, Option-cases, if_rule, length, take, drop, length-replicate, length-take,
  length-drop, arith, Outcome, ok, thrown, out_of_fuel, ◌>>=◌, undefined, Fault, out_of_bounds,
  Ends, Round, repeat_rule,
}
use linux_tcp_servers.Bytes.{overwrite, overwrite-fits, length-overwrite, slice-eq-some}
use linux_tcp_servers.Os.{
  Os, Io, would_block, Reply, returned, failed, ctl_mod, sys_read, sys_write, sys_epoll_ctl,
}
use linux_tcp_servers.Os.Laws.{Transfers, WriteFits}
use linux_tcp_servers.Connection.{
  has_end, ConnectionData, connection, buffer_size, Handling, ReadEnd, left, gave_up, read_room,
  write_count, after_read, read_body, after_reading, after_write, write_body, read_loop, write_loop,
  write_part, rearm_epoll, rearm_event, write_stops, set_ready, handle_connection_event,
}

pub record IsValid (c : ConnectionData) : Type 0 where
  pub size : length c.buffer ≡ buffer_size
  pub read_in : c.read_index ≤ buffer_size
  pub write_in : c.write_index ≤ c.read_index

pub connection-IsValid : (k : ℤ) → IsValid (connection k)
unfolding connection
connection-IsValid k = omega (arith, length-replicate {0} 1024 zero)

abbrev pub OnlyBounds : Fault → Type 0
OnlyBounds e = e ≡ out_of_bounds

module _ {W : Type 0} where
  abbrev pub end_state : ReadEnd W → Handling W
  end_state (left s) = s
  end_state (gave_up s) = s

  abbrev pub room_left : Handling W → ℕ
  room_left s = buffer_size - s.conn.read_index

  abbrev pub unsent : Handling W → ℕ
  unsent s = s.conn.read_index - s.conn.write_index

  -- What `write` is given: the bytes from `write_index` to `read_index`.
  abbrev pub pending : Handling W → List ℕ
  pending s = take (unsent s) (drop s.conn.write_index s.conn.buffer)

  pub length-pending : (s : Handling W) → IsValid s.conn → length (pending s) ≡ unsent s
  length-pending s v = omega (
    arith,
    length-take (unsent s) (drop s.conn.write_index s.conn.buffer),
    length-drop s.conn.write_index s.conn.buffer,
  )

module _ {W : Type 0} (os : Os W) (epoll_fd : ℤ) (address : ℕ) (sfd : ℤ) (Φ : Io W → Type 0)
    (keep_read : (io : Io W) (count : ℕ) → Φ io → Φ (sys_read os sfd count io).1)
    (keep_write : (io : Io W) (bytes : List ℕ) → Φ io → Φ (sys_write os sfd bytes io).1)
    (keep_rearm : (io : Io W) (b : Bool)
      → Φ io
      → Φ
          (sys_epoll_ctl os epoll_fd ctl_mod sfd
            (some (rearm_event os epoll_fd address b))
            io).1) where
  pub record Keeps (s : Handling W) : Type 0 where
    pub own : s.conn.conn_fd ≡ sfd
    pub valid : IsValid s.conn
    pub fact : Φ s.io

  abbrev ReadGoal : Outcome (ReadEnd W) → Type 0
  ReadGoal = Ends OnlyBounds (λ e. Keeps (end_state e))

  abbrev WriteGoal : Outcome (Handling W) → Type 0
  WriteGoal = Ends OnlyBounds Keeps

  rearm-Keeps : (b : Bool) (s : Handling W) → Keeps s → Keeps (rearm_epoll os epoll_fd address b s)
  rearm-Keeps b s h = record {
    own = h.own;
    valid = h.valid;
    fact =
        subst
          (λ x.
            Φ
              (sys_epoll_ctl os epoll_fd ctl_mod x (some (rearm_event os epoll_fd address b))
                s.io).1)
          (sym h.own) (keep_rearm s.io b h.fact);
  }

  stored-Round :
      (s : Handling W) (b : ℕ) (bytes : List ℕ)
      → Keeps s
      → Round Keeps ReadGoal room_left
          (room_left s)
          (after_read os epoll_fd address s (returned (b ∷ bytes)))
  stored-Round s b bytes h =
      elim (Option-cases (overwrite s.conn.buffer s.conn.read_index (b ∷ bytes))) [
        | inl full ↦ rw full refl
        | inr (buffer, e) ↦ rw e (
            let fits = overwrite-fits s.conn.buffer (b ∷ bytes) s.conn.read_index e in
            let long = length-overwrite s.conn.buffer (b ∷ bytes) s.conn.read_index e in
            if_rule (Round Keeps ReadGoal room_left (room_left s)) (has_end buffer)
              (λ ends. (record { own = h.own; valid = omega arith; fact = h.fact }, omega arith))
              (λ endless. refl))
      ]

  after_read-Round :
      (s : Handling W) (r : Reply (List ℕ))
      → Keeps s
      → Round Keeps ReadGoal room_left (room_left s) (after_read os epoll_fd address s r)
  after_read-Round s (returned []) h = h
  after_read-Round s (returned (b ∷ bytes)) h = stored-Round s b bytes h
  after_read-Round s (failed e) h =
      if_rule (Round Keeps ReadGoal room_left (room_left s)) (would_block s.io.errno)
        (λ blocked. record { own = h.own; valid = omega arith; fact = h.fact })
        (λ error.
          let t = rearm-Keeps true s h in
          record { own = t.own; valid = omega arith; fact = t.fact })

  read_body-Round :
      (s : Handling W)
      → Keeps s
      → Round Keeps ReadGoal room_left (room_left s) (read_body os epoll_fd address s)
  read_body-Round s h =
      let (r, io) = sys_read os s.conn.conn_fd (read_room s.conn) s.io in
      after_read-Round (record s { io = io }) r
        (record {
          own = h.own;
          valid = h.valid;
          fact =
              subst (λ x. Φ (sys_read os x (read_room s.conn) s.io).1) (sym h.own)
                (keep_read s.io (read_room s.conn) h.fact);
        })

  write_stops-Round :
      (s : Handling W)
      → Keeps s
      → Round Keeps WriteGoal unsent (unsent s) (write_stops os epoll_fd address s)
  write_stops-Round s h =
      rearm-Keeps _ (set_ready os epoll_fd address false s)
        (record { own = h.own; valid = omega arith; fact = h.fact })

  after_write-Round :
      (s : Handling W) (r : Reply ℕ)
      → WriteFits (pending s) r
      → Keeps s
      → Round Keeps WriteGoal unsent (unsent s) (after_write os epoll_fd address s r)
  after_write-Round s (returned zero) f h = write_stops-Round s h
  after_write-Round s (returned (suc n)) f h =
      if_rule (Round Keeps WriteGoal unsent (unsent s))
        (leb s.conn.read_index (s.conn.write_index + suc n))
        (λ complete.
          rearm-Keeps true (set_ready os epoll_fd address false t)
            (record { own = h.own; valid = omega (arith, sent_more); fact = h.fact }))
        (λ more. (
          record { own = h.own; valid = sent_more; fact = h.fact },
          grind (arith, length-pending s h.valid),
        ))
    where
      t : Handling W
      t = record s { conn = record s.conn { write_index = s.conn.write_index + suc n } }

      sent_more : IsValid t.conn
      sent_more = omega (arith, length-pending s h.valid)
  after_write-Round s (failed e) f h = write_stops-Round s h

  module _ (laws : Transfers os) where
    write_body-Round :
        (s : Handling W)
        → Keeps s
        → Round Keeps WriteGoal unsent (unsent s) (write_body os epoll_fd address s)
    write_body-Round s h =
        rw (count, slice-eq-some s.conn.buffer s.conn.write_index (unsent s) (omega arith))
          (after_write-Round (record s { io = io }) r
            (laws.write_fits s.io.world s.conn.conn_fd (pending s))
            (record {
              own = h.own;
              valid = h.valid;
              fact =
                  subst (λ x. Φ (sys_write os x (pending s) s.io).1) (sym h.own)
                    (keep_write s.io (pending s) h.fact);
            }))
      where
        open h.valid use {size, read_in, write_in}

        count : write_count s.conn ≡ unsent s
        count = omega arith

        io : Io W
        io = (sys_write os s.conn.conn_fd (pending s) s.io).1

        r : Reply ℕ
        r = (sys_write os s.conn.conn_fd (pending s) s.io).0

    write_part-Ends :
        (fuel : ℕ) (s : Handling W)
        → buffer_size < fuel
        → Keeps s
        → WriteGoal (write_part os epoll_fd address fuel s)
    unfolding write_part write_loop
    write_part-Ends fuel s m h =
        if_rule WriteGoal s.conn.ready_for_write
          (λ ready.
            repeat_rule Keeps WriteGoal unsent (write_body os epoll_fd address) write_body-Round
              fuel s (omega (arith, h.valid)) h)
          (λ not_ready. h)

    after_reading-Ends :
        (fuel : ℕ) (o : Outcome (ReadEnd W))
        → buffer_size < fuel
        → ReadGoal o
        → WriteGoal (o >>= after_reading os epoll_fd address fuel)
    after_reading-Ends fuel (ok (left s)) m h = write_part-Ends fuel s m h
    after_reading-Ends fuel (ok (gave_up s)) m h = h
    after_reading-Ends fuel (thrown e) m h = h
    after_reading-Ends fuel (undefined e) m h = h
    after_reading-Ends fuel out_of_fuel m h = h

    -- With more than 1024 rounds of fuel, and a kernel whose `read` and `write` transfer at most
    -- what they are asked to, `handleConnectionEvent` ends from every valid connection: it returns
    -- it valid (indices in order and within the 1024 bytes) under the same descriptor, unless it
    -- stores or logs a byte outside the buffer. It neither throws nor runs on, and what `read`,
    -- `write` and the rearming of its own descriptor leave true is true at the end.
    pub handle_connection_event-Keeps :
        (fuel : ℕ) (s : Handling W)
        → buffer_size < fuel
        → Keeps s
        → Ends OnlyBounds Keeps (handle_connection_event os epoll_fd address fuel s)
    unfolding handle_connection_event read_loop
    handle_connection_event-Keeps fuel s m h =
        if_rule WriteGoal s.conn.ready_for_write (λ ready. write_part-Ends fuel s m h)
          (λ not_ready. after_reading-Ends fuel (read_loop os epoll_fd address fuel s) m (
            repeat_rule Keeps ReadGoal room_left (read_body os epoll_fd address) read_body-Round
              fuel s (omega arith) h))
