-- ===== src/Connection/Rearm.antt =====
-- EPOLLONESHOT: an event disarms the descriptor, and `handleConnectionEvent` must arm it again. How
-- often it does.
use linux_tcp_servers.Common.{
  ℕ, ℤ, zero, suc, ◌+◌, ◌≡◌, refl, ◌⊎◌, inl, inr, ◌<◌, Bool, bit_or, true, false, List, [], ◌∷◌,
  Option, none, some, arith, ◌==ℤ◌, ==ℤ_refl, if◌then◌else◌, Outcome, ok, thrown, undefined,
  out_of_fuel, Ends, Partly, Ends-with, Round, repeat_keep, if_rule, leb, ◌>>=◌,
}
use linux_tcp_servers.Bytes.{slice}
use linux_tcp_servers.Os.{
  Os, Call, EpollEvent, ptr, ctl_call, ctl_mod, read_call, Reply, returned, failed, eagain,
  ewouldblock, other,
}
use linux_tcp_servers.Os.Flags.{epollin, epollout, epollet, epolloneshot}
use linux_tcp_servers.Os.Laws.{Transfers}
use linux_tcp_servers.Connection.Bounds.{OnlyBounds}
use linux_tcp_servers.Connection.Echo.{IsEcho, handle_connection_event-IsEcho}
use linux_tcp_servers.Connection.History.{noted, put}
use linux_tcp_servers.Connection.{
  has_end, rearm_epoll, set_ready, write_stops, read_room, write_count, Handling, ReadEnd, left,
  gave_up, buffer_size, stored, after_read, read_body, after_reading, sending, after_write,
  write_body, read_loop, write_loop, write_part, handle_connection_event,
}

-- The calls of `epoll_ctl` that modify the interest in `sfd`, newest first: of which epoll instance,
-- and to which event.
abbrev pub Rearms : Type 0
Rearms = List (ℤ × Option EpollEvent)

abbrev one_rearm : ℤ → Call → Rearms → Rearms
one_rearm sfd (ctl_call epfd ctl_mod f e r) before =
    if f ==ℤ sfd then (epfd, e) ∷ before else before
one_rearm sfd c before = before

unfoldable pub rearms : ℤ → List Call → Rearms
rearms sfd [] = []
rearms sfd (c ∷ trace) = one_rearm sfd c (rearms sfd trace)

-- The newest call is a `read` that found the end of the stream.
abbrev pub AtEof : List Call → Type 0
AtEof (read_call f n (returned []) ∷ trace) = Unit
AtEof trace = ⊥

module _ {W : Type 0} (os : Os W) (epoll_fd : ℤ) (address : ℕ) (sfd : ℤ) (before : Rearms) where
  -- Edge-triggered, one-shot, of reading or of writing, with the address of the connection's data.
  abbrev pub armed : Bool → ℤ × Option EpollEvent
  armed is_read = (
    epoll_fd,
    some (record {
      events = bit_or (bit_or (if is_read then epollin else epollout) epollet) epolloneshot;
      data_of = ptr (some address);
    }),
  )

  -- The interest in the descriptor has been set once more than before, or not at all and the client has
  -- stopped sending.
  abbrev pub Rearmed : Handling W → Type 0
  Rearmed t =
      ((is_read : Bool) × (rearms sfd t.io.trace ≡ armed is_read ∷ before))
      ⊎ ((rearms sfd t.io.trace ≡ before) × AtEof t.io.trace)

  record Unarmed (s : Handling W) : Type 0 where
    own : s.conn.conn_fd ≡ sfd
    none_yet : rearms sfd s.io.trace ≡ before

  abbrev ReadDone : ReadEnd W → Type 0
  ReadDone (left s) = Unarmed s × ((s.conn.ready_for_write ≡ true) ⊎ AtEof s.io.trace)
  ReadDone (gave_up s) = rearms sfd s.io.trace ≡ armed true ∷ before

  abbrev ReadGoal : Outcome (ReadEnd W) → Type 0
  ReadGoal = Partly ReadDone

  abbrev WriteGoal : Outcome (Handling W) → Type 0
  WriteGoal = Partly Rearmed

  rearm_epoll-rearms :
      (is_read : Bool) (s : Handling W)
      → Unarmed s
      → rearms sfd (rearm_epoll os epoll_fd address is_read s).io.trace ≡ armed is_read ∷ before
  unfolding rearms
  rearm_epoll-rearms is_read s h = ground (arith, h.own, h.none_yet, ==ℤ_refl sfd)

  stored-Round :
      (s : Handling W) (bytes : List ℕ) (o : Option (List ℕ))
      → Unarmed s
      → Round Unarmed ReadGoal (λ s. 0) 1 (stored os epoll_fd address s bytes o)
  stored-Round s bytes none h = tt
  stored-Round s bytes (some buffer) h =
      if_rule (Round Unarmed ReadGoal (λ s. 0) 1) (has_end buffer)
        (λ ends. (record { own = h.own; none_yet = h.none_yet }, omega arith)) (λ endless. tt)

  after_read-Round :
      (s : Handling W) (count : ℕ) (w : W) (r : Reply (List ℕ))
      → Unarmed s
      → Round Unarmed ReadGoal (λ s. 0) 1 (after_read os epoll_fd address (noted s count w r) r)
  unfolding rearms
  after_read-Round s count w (returned []) h =
      (record { own = h.own; none_yet = h.none_yet }, inr tt)
  after_read-Round s count w (returned (b ∷ bytes)) h =
      stored-Round (noted s count w (returned (b ∷ bytes))) (b ∷ bytes) _
        (record { own = h.own; none_yet = h.none_yet })
  after_read-Round s count w (failed eagain) h =
      (record { own = h.own; none_yet = h.none_yet }, inl refl)
  after_read-Round s count w (failed ewouldblock) h =
      (record { own = h.own; none_yet = h.none_yet }, inl refl)
  after_read-Round s count w (failed (other n)) h =
      rearm_epoll-rearms true (noted s count w (failed (other n)))
        (record { own = h.own; none_yet = h.none_yet })

  abbrev advanced : Handling W → List ℕ → W → ℕ → Handling W
  advanced s bytes w n =
      let t = put s bytes w (returned (suc n)) in
      record t { conn = record t.conn { write_index = t.conn.write_index + suc n } }

  write_stops-Round :
      (s : Handling W)
      → Unarmed s
      → Round Unarmed WriteGoal (λ s. 0) 1 (write_stops os epoll_fd address s)
  write_stops-Round s h = inl (
    _,
    rearm_epoll-rearms _ (set_ready os epoll_fd address false s)
        (record { own = h.own; none_yet = h.none_yet }),
  )

  after_write-Round :
      (s : Handling W) (bytes : List ℕ) (w : W) (r : Reply ℕ)
      → Unarmed s
      → Round Unarmed WriteGoal (λ s. 0) 1 (after_write os epoll_fd address (put s bytes w r) r)
  unfolding rearms
  after_write-Round s bytes w (returned zero) h =
      write_stops-Round (put s bytes w (returned zero))
        (record { own = h.own; none_yet = h.none_yet })
  after_write-Round s bytes w (returned (suc n)) h =
      if_rule (Round Unarmed WriteGoal (λ s. 0) 1)
        (leb s.conn.read_index (s.conn.write_index + suc n))
        (λ complete. inl (
          true,
          rearm_epoll-rearms true (set_ready os epoll_fd address false (advanced s bytes w n))
              (record { own = h.own; none_yet = h.none_yet }),
        ))
        (λ more. (record { own = h.own; none_yet = h.none_yet }, omega arith))
  after_write-Round s bytes w (failed e) h =
      write_stops-Round (put s bytes w (failed e)) (record { own = h.own; none_yet = h.none_yet })

  sending-Round :
      (s : Handling W) (o : Option (List ℕ))
      → Unarmed s
      → Round Unarmed WriteGoal (λ s. 0) 1 (sending os epoll_fd address s o)
  sending-Round s none h = tt
  sending-Round s (some bytes) h =
      let (r, v) = os.write s.io.world s.conn.conn_fd bytes in after_write-Round s bytes v r h

  write_part-Rearmed :
      (fuel : ℕ) (s : Handling W)
      → Unarmed s
      → (s.conn.ready_for_write ≡ true) ⊎ AtEof s.io.trace
      → WriteGoal (write_part os epoll_fd address fuel s)
  unfolding write_part write_loop
  write_part-Rearmed fuel s h ready =
      if_rule WriteGoal s.conn.ready_for_write
        (λ t.
          repeat_keep Unarmed WriteGoal (write_body os epoll_fd address) tt
            (λ u k. sending-Round u (slice u.conn.buffer u.conn.write_index (write_count u.conn)) k)
            fuel s h)
        (λ f. finish ready f)
    where
      finish :
          (s.conn.ready_for_write ≡ true) ⊎ AtEof s.io.trace
          → s.conn.ready_for_write ≡ false
          → Rearmed s
      finish (inl t) f = cc
      finish (inr eof) f = inr (h.none_yet, eof)

  after_reading-Rearmed :
      (fuel : ℕ) (o : Outcome (ReadEnd W))
      → ReadGoal o
      → WriteGoal (o >>= after_reading os epoll_fd address fuel)
  after_reading-Rearmed fuel (ok (left s)) (h, r) = write_part-Rearmed fuel s h r
  after_reading-Rearmed fuel (ok (gave_up s)) h = inl (true, h)
  after_reading-Rearmed fuel (thrown e) h = tt
  after_reading-Rearmed fuel (undefined e) h = tt
  after_reading-Rearmed fuel out_of_fuel h = tt

  handle_connection_event-Partly :
      (fuel : ℕ) (s : Handling W)
      → Unarmed s
      → WriteGoal (handle_connection_event os epoll_fd address fuel s)
  unfolding handle_connection_event read_loop
  handle_connection_event-Partly fuel s h =
      if_rule WriteGoal s.conn.ready_for_write (λ t. write_part-Rearmed fuel s h (inl t))
        (λ f. after_reading-Rearmed fuel (read_loop os epoll_fd address fuel s) (
          repeat_keep Unarmed ReadGoal (read_body os epoll_fd address) tt
            (λ u k.
              let (r, v) = os.read u.io.world u.conn.conn_fd (read_room u.conn) in
              after_read-Round u (read_room u.conn) v r k)
            fuel s h))

-- From a valid connection the handler returns, unless a byte outside the buffer is stored or
-- logged, and has then made exactly one call of EPOLL_CTL_MOD on its descriptor, which may fail: in
-- the worker's epoll instance, edge-triggered and one-shot, of reading or of writing, with the
-- address of the connection's data; or none, and then the last thing it did was to read the end of
-- the client's stream.
pub handle_connection_event-Rearmed :
    {W : Type 0} (os : Os W) (epoll_fd : ℤ) (address : ℕ) (sfd : ℤ) (fuel : ℕ) (s : Handling W)
    → Transfers os
    → buffer_size < fuel
    → IsEcho sfd s
    → Ends OnlyBounds
        (Rearmed os epoll_fd address sfd (rearms sfd s.io.trace))
        (handle_connection_event os epoll_fd address fuel s)
handle_connection_event-Rearmed os epoll_fd address sfd fuel s laws enough h =
    Ends-with OnlyBounds (IsEcho sfd) _ (handle_connection_event os epoll_fd address fuel s)
      (handle_connection_event-IsEcho os epoll_fd address sfd laws fuel s enough h)
      (handle_connection_event-Partly os epoll_fd address sfd (rearms sfd s.io.trace) fuel s
        (record { own = h.own; none_yet = refl }))
