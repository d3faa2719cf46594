-- ===== src/Connection/Limits.antt =====
-- `handleConnectionEvent` at its limits: a full buffer, and a client that stops sending.
use linux_tcp_servers.Common.{
  ℕ, ℤ, suc, ◌≡◌, refl, ◌∙◌, false, List, [], ◌∷◌, none, Option-cases, inl, inr, arith, length, ok,
  undefined, out_of_bounds, repeat-undefined, repeat-break, if_rule, ap, ◌>>=◌,
}
use linux_tcp_servers.Bytes.{overwrite, overwrite-fits}
use linux_tcp_servers.Os.{Os, returned, sys_read}
use linux_tcp_servers.Connection.{
  Handling, read_room, stored, left, after_reading, read_body, after_read, read_loop, write_part,
  handle_connection_event,
}
use linux_tcp_servers.Connection.Bounds.{IsValid}

module _ {W : Type 0} (os : Os W) (epoll_fd : ℤ) (address : ℕ) where
  read_body_full :
      (s : Handling W) (b : ℕ) (bytes : List ℕ)
      → IsValid s.conn
      → (sys_read os s.conn.conn_fd (read_room s.conn) s.io).0 ≡ returned (b ∷ bytes)
      → length (b ∷ bytes) ≡ read_room s.conn
      → read_body os epoll_fd address s ≡ undefined out_of_bounds
  read_body_full s b bytes v e all =
      ap (after_read os epoll_fd address s') e
      ∙ ap (stored os epoll_fd address s' (b ∷ bytes)) no_room
    where
      s' : Handling W
      s' = record s { io = (sys_read os s.conn.conn_fd (read_room s.conn) s.io).1 }

      no_room : overwrite s.conn.buffer s.conn.read_index (b ∷ bytes) ≡ none
      no_room = elim (Option-cases (overwrite s.conn.buffer s.conn.read_index (b ∷ bytes))) [
        | inl none_left ↦ none_left
        | inr (buffer, stored_it) ↦ absurd (
            omega (
              arith,
              overwrite-fits s.conn.buffer (b ∷ bytes) s.conn.read_index stored_it,
              v.size,
              v.read_in,
            ))
      ]

  -- The handler asks `read` for one byte more than the buffer has room for: if a valid connection that
  -- is not ready for writing is given as many bytes as asked for, a byte is stored outside the buffer.
  pub read_overflows :
      (fuel : ℕ) (s : Handling W) (b : ℕ) (bytes : List ℕ)
      → IsValid s.conn
      → s.conn.ready_for_write ≡ false
      → (sys_read os s.conn.conn_fd (read_room s.conn) s.io).0 ≡ returned (b ∷ bytes)
      → length (b ∷ bytes) ≡ read_room s.conn
      → handle_connection_event os epoll_fd address (suc fuel) s ≡ undefined out_of_bounds
  unfolding handle_connection_event read_loop
  read_overflows fuel s b bytes v reading e all =
      if_rule (λ o. o ≡ undefined out_of_bounds) s.conn.ready_for_write (λ t. cc)
        (λ f.
          ap (λ o. o >>= after_reading os epoll_fd address (suc fuel))
            (repeat-undefined fuel (read_body os epoll_fd address) s out_of_bounds
              (read_body_full s b bytes v e all)))

  abbrev pub after_eof : Handling W → Handling W
  after_eof s = record s { io = (sys_read os s.conn.conn_fd (read_room s.conn) s.io).1 }

  write_part_idle :
      (fuel : ℕ) (s : Handling W)
      → s.conn.ready_for_write ≡ false
      → write_part os epoll_fd address fuel s ≡ ok s
  unfolding write_part
  write_part_idle fuel s f = if_rule (λ o. o ≡ ok s) s.conn.ready_for_write (λ t. cc) (λ g. refl)

  -- If the first `read` of a connection that is not ready for writing finds the end of the stream, the
  -- handler makes no other call and changes nothing: the descriptor is neither closed nor armed again.
  pub eof_abandons :
      (fuel : ℕ) (s : Handling W)
      → s.conn.ready_for_write ≡ false
      → (sys_read os s.conn.conn_fd (read_room s.conn) s.io).0 ≡ returned []
      → handle_connection_event os epoll_fd address (suc fuel) s ≡ ok (after_eof s)
  unfolding handle_connection_event read_loop
  eof_abandons fuel s reading e =
      if_rule (λ o. o ≡ ok (after_eof s)) s.conn.ready_for_write (λ t. cc)
        (λ f.
          ap (λ o. o >>= after_reading os epoll_fd address (suc fuel))
            (repeat-break fuel (read_body os epoll_fd address) s (left (after_eof s))
              (ap (after_read os epoll_fd address (after_eof s)) e))
          ∙ write_part_idle (suc fuel) (after_eof s) reading)
