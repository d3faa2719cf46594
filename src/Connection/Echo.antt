-- ===== src/Connection/Echo.antt =====
-- The invariant of a connection, through `handleConnectionEvent`: its buffer and its indices against
-- the bytes that came in and went out.
use linux_tcp_servers.Common.{
  ℕ, ℤ, zero, suc, ◌<◌, ◌≡◌, refl, inl, inr, List, [], ◌∷◌, Option-cases, if_rule, take, drop,
  take-add, take-take, append-nil, arith, ==ℤ_refl, Outcome, ok, thrown, out_of_fuel, ◌>>=◌,
  undefined, Ends, Round, repeat_rule,
}
use linux_tcp_servers.Bytes.{
  overwrite, overwrite-fits, length-overwrite, take-overwrite, take-overwrite_before, slice-eq-some,
}
use linux_tcp_servers.Os.{Os, eagain, ewouldblock, other, Reply, returned, failed}
use linux_tcp_servers.Os.Laws.{Transfers, WriteFits}
use linux_tcp_servers.Connection.{
  buffer_size, Handling, ReadEnd, left, gave_up, read_room, write_count, after_read, read_body,
  after_reading, after_write, write_body, read_loop, write_loop, write_part,
  handle_connection_event,
}
use linux_tcp_servers.Connection.Bounds.{
  IsValid, OnlyBounds, end_state, room_left, unsent, pending, length-pending,
}
use linux_tcp_servers.Connection.History.{received, sent, noted, put}

pub record IsEcho {W : Type 0} (sfd : ℤ) (s : Handling W) : Type 0 where
  pub own : s.conn.conn_fd ≡ sfd
  pub valid : IsValid s.conn
  pub came : received sfd s.io.trace ≡ take s.conn.read_index s.conn.buffer
  pub went : sent sfd s.io.trace ≡ take s.conn.write_index s.conn.buffer

module _ {W : Type 0} (os : Os W) (epoll_fd : ℤ) (address : ℕ) (sfd : ℤ) where
  abbrev ReadGoal : Outcome (ReadEnd W) → Type 0
  ReadGoal = Ends OnlyBounds (λ e. IsEcho sfd (end_state e))

  after_read-Round :
      (s : Handling W) (count : ℕ) (w : W) (r : Reply (List ℕ))
      → IsEcho sfd s
      → Round
          (IsEcho sfd)
          ReadGoal
          room_left
          (room_left s)
          (after_read os epoll_fd address (noted s count w r) r)
  unfolding received sent
  after_read-Round s count w (returned []) h = ground (arith, append-nil (received sfd s.io.trace))
  after_read-Round s count w (returned (b ∷ bytes)) h =
      elim (Option-cases (overwrite s.conn.buffer s.conn.read_index (b ∷ bytes))) [
        | inl full ↦ rw (full) refl
        | inr (buffer, e) ↦ rw e (
            ground (
              arith,
              ==ℤ_refl sfd,
              length-overwrite s.conn.buffer (b ∷ bytes) s.conn.read_index e,
              overwrite-fits s.conn.buffer (b ∷ bytes) s.conn.read_index e,
              take-overwrite s.conn.buffer (b ∷ bytes) s.conn.read_index e,
              take-overwrite_before s.conn.buffer (b ∷ bytes) s.conn.write_index s.conn.read_index
                  e,
            ))
      ]
  after_read-Round s count w (failed eagain) h = ground (arith, ==ℤ_refl sfd)
  after_read-Round s count w (failed ewouldblock) h = ground arith
  after_read-Round s count w (failed (other n)) h = ground (arith, ==ℤ_refl sfd)

  abbrev WriteGoal : Outcome (Handling W) → Type 0
  WriteGoal = Ends OnlyBounds (IsEcho sfd)

  read_body-Round :
      (s : Handling W)
      → IsEcho sfd s
      → Round (IsEcho sfd) ReadGoal room_left (room_left s) (read_body os epoll_fd address s)
  read_body-Round s h =
      let (r, w) = os.read s.io.world s.conn.conn_fd (read_room s.conn) in
      after_read-Round s (read_room s.conn) w r h

  read_loop-Ends :
      (fuel : ℕ) (s : Handling W)
      → buffer_size < fuel
      → IsEcho sfd s
      → ReadGoal (read_loop os epoll_fd address fuel s)
  unfolding read_loop
  read_loop-Ends fuel s m h =
      repeat_rule (IsEcho sfd) ReadGoal room_left (read_body os epoll_fd address) read_body-Round
        fuel s (omega arith) h

  after_write-Round :
      (s : Handling W) (w : W) (r : Reply ℕ)
      → WriteFits (pending s) r
      → IsEcho sfd s
      → Round
          (IsEcho sfd)
          WriteGoal
          unsent
          (unsent s)
          (after_write os epoll_fd address (put s (pending s) w r) r)
  unfolding received sent
  after_write-Round s w (returned zero) f h = ground (arith, append-nil (sent sfd s.io.trace))
  after_write-Round s w (returned (suc n)) f h = ground (
    arith,
    ==ℤ_refl sfd,
    length-pending s h.valid,
    take-take (suc n) (unsent s) (drop s.conn.write_index s.conn.buffer),
    take-add s.conn.write_index (suc n) s.conn.buffer,
  )
  after_write-Round s w (failed e) f h = ground arith

  module _ (laws : Transfers os) where
    write_body-Round :
        (s : Handling W)
        → IsEcho sfd s
        → Round (IsEcho sfd) WriteGoal unsent (unsent s) (write_body os epoll_fd address s)
    write_body-Round s h =
        rw (count, slice-eq-some s.conn.buffer s.conn.write_index (unsent s) (omega arith))
          (after_write-Round s w r (laws.write_fits s.io.world s.conn.conn_fd (pending s)) h)
      where
        open h.valid use {size, read_in, write_in}

        count : write_count s.conn ≡ unsent s
        count = omega arith

        w : W
        w = (os.write s.io.world s.conn.conn_fd (pending s)).1

        r : Reply ℕ
        r = (os.write s.io.world s.conn.conn_fd (pending s)).0

    write_loop-Ends :
        (fuel : ℕ) (s : Handling W)
        → buffer_size < fuel
        → IsEcho sfd s
        → WriteGoal (write_loop os epoll_fd address fuel s)
    unfolding write_loop
    write_loop-Ends fuel s m h =
        repeat_rule (IsEcho sfd) WriteGoal unsent (write_body os epoll_fd address) write_body-Round
          fuel s (omega arith) h

    write_part-Ends :
        (fuel : ℕ) (s : Handling W)
        → buffer_size < fuel
        → IsEcho sfd s
        → WriteGoal (write_part os epoll_fd address fuel s)
    unfolding write_part
    write_part-Ends fuel s m h =
        if_rule WriteGoal s.conn.ready_for_write (λ ready. write_loop-Ends fuel s m h)
          (λ not_ready. h)

    after_reading-Ends :
        (fuel : ℕ) (o : Outcome (ReadEnd W))
        → buffer_size < fuel
        → ReadGoal o
        → WriteGoal (o >>= after_reading os epoll_fd address fuel)
    after_reading-Ends fuel (ok (left s)) m h = write_part-Ends fuel s m h
    after_reading-Ends fuel (ok (gave_up s)) m h = h
    after_reading-Ends fuel (thrown e) m h = h
    after_reading-Ends fuel (undefined e) m h = h
    after_reading-Ends fuel out_of_fuel m h = h

    -- With more than 1024 rounds of fuel, and a kernel whose `read` and `write` transfer at most
    -- what they are asked to, `handleConnectionEvent` ends from every state that satisfies
    -- `IsEcho`: it returns in such a state again (indices in order and within the 1024 bytes, the
    -- bytes that came in at the front of the buffer, those that went out a prefix of them), unless
    -- it stores or logs a byte outside the buffer. It neither throws nor runs on.
    pub handle_connection_event-IsEcho :
        (fuel : ℕ) (s : Handling W)
        → buffer_size < fuel
        → IsEcho sfd s
        → Ends OnlyBounds (IsEcho sfd) (handle_connection_event os epoll_fd address fuel s)
    unfolding handle_connection_event
    handle_connection_event-IsEcho fuel s m h =
        if_rule WriteGoal s.conn.ready_for_write (λ ready. write_part-Ends fuel s m h)
          (λ not_ready.
            after_reading-Ends fuel (read_loop os epoll_fd address fuel s) m
              (read_loop-Ends fuel s m h))
