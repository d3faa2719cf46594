-- ===== src/Connection.antt =====
-- src/servers/multi_worker_nonblocking_io_multiplexing_server.h: `ConnectionData`, and what a worker
-- does with the connection of one event: `handleConnectionEvent` and `rearmEpoll`.
-- The worker's member `event_` is overwritten before each use, so it is a local value here.
-- Logging is left out, but for the text that it reads from the buffer, and is taken to leave `errno`
-- alone.
pub mod History
pub mod Bounds
pub mod Echo
pub mod Frame
pub mod Session
pub mod Rearm
pub mod Limits
use linux_tcp_servers.Common.{
  ℕ, zero, suc, ℤ, ◌+◌, ◌==◌, leb, if◌then◌else◌, Bool, true, false, bit_or, List, [], ◌∷◌, Option,
  none, some, length, replicate, Outcome, ok, undefined, out_of_bounds, ◌>>=◌, Step, continue,
  break, repeat,
}
use linux_tcp_servers.Bytes.{add_size, sub_size, overwrite, slice}
use linux_tcp_servers.Os.{
  Os, Io, Reply, returned, failed, would_block, EpollEvent, ptr, ctl_mod, sys_read, sys_write,
  sys_epoll_ctl,
}
use linux_tcp_servers.Os.Flags.{epollin, epollout, epollet, epolloneshot}

abbrev pub buffer_size : ℕ
buffer_size = 1024

-- The indices are `ssize_t`; they start at 0 and only grow, so they are numbers.
pub record ConnectionData : Type 0 where
  pub conn_fd : ℤ
  pub buffer : List ℕ
  pub read_index : ℕ
  pub write_index : ℕ
  pub ready_for_write : Bool

-- The constructor.
unfoldable pub connection : ℤ → ConnectionData
connection conn_fd = record {
  conn_fd = conn_fd;
  buffer = replicate buffer_size 0;
  read_index = 0;
  write_index = 0;
  ready_for_write = false;
}

abbrev pub reset : ConnectionData → ConnectionData
reset c = record c { read_index = 0; write_index = 0; ready_for_write = false }

-- A worker at work on one connection.
pub record Handling (W : Type 0) : Type 0 where
  pub io : Io W
  pub conn : ConnectionData

-- How the reading loop is left: by `break`, or by the handler's `return`.
pub data ReadEnd (W : Type 0) : Type 0 where
  left : Handling W → ReadEnd W
  gave_up : Handling W → ReadEnd W

-- The argument `buffer_.size() - read_index_ + 1` of `read`.
abbrev pub read_room : ConnectionData → ℕ
read_room c = add_size (sub_size (length c.buffer) c.read_index) 1

abbrev pub write_count : ConnectionData → ℕ
write_count c = sub_size c.read_index c.write_index

-- A C string ends within the buffer. What lies behind the buffer is not read for a 0.
unfoldable pub has_end : List ℕ → Bool
has_end [] = false
has_end (zero ∷ buffer) = true
has_end (suc b ∷ buffer) = has_end buffer

-- `epoll_fd` is the worker's, and `address` that of the connection's data.
module _ {W : Type 0} (os : Os W) (epoll_fd : ℤ) (address : ℕ) where
  abbrev pub rearm_event : Bool → EpollEvent
  rearm_event is_read = record {
    events = bit_or (bit_or (if is_read then epollin else epollout) epollet) epolloneshot;
    data_of = ptr (some address);
  }

  -- A failure is only logged.
  abbrev pub rearm_epoll : Bool → Handling W → Handling W
  rearm_epoll is_read s = record s {
    io = (sys_epoll_ctl os epoll_fd ctl_mod s.conn.conn_fd (some (rearm_event is_read)) s.io).1;
  }

  abbrev pub set_ready : Bool → Handling W → Handling W
  set_ready b s = record s { conn = record s.conn { ready_for_write = b } }

  -- The bytes that `read` returned are in the buffer, if it holds them; and then the buffer is logged
  -- as a C string, up to its first 0.
  abbrev pub stored :
      Handling W → List ℕ → Option (List ℕ) → Outcome (Step (Handling W) (ReadEnd W))
  stored s bytes none = undefined out_of_bounds
  stored s bytes (some buffer) =
      if has_end buffer
      then ok (
          continue (record s {
            conn = record s.conn { buffer = buffer; read_index = s.conn.read_index + length bytes };
          }))
      else undefined out_of_bounds

  abbrev pub after_read : Handling W → Reply (List ℕ) → Outcome (Step (Handling W) (ReadEnd W))
  after_read s (returned []) = ok (break (left s))
  after_read s (returned (b ∷ bytes)) =
      stored s (b ∷ bytes) (overwrite s.conn.buffer s.conn.read_index (b ∷ bytes))
  after_read s (failed e) =
      if would_block s.io.errno
      then ok (break (left (set_ready true s)))
      else let t = rearm_epoll true s in ok (break (gave_up (record t { conn = reset t.conn })))

  abbrev pub read_body : Handling W → Outcome (Step (Handling W) (ReadEnd W))
  read_body s =
      let (r, io) = sys_read os s.conn.conn_fd (read_room s.conn) s.io in
      after_read (record s { io = io }) r

  -- The branch `wlen <= 0`.
  abbrev pub write_stops : Handling W → Outcome (Step (Handling W) (Handling W))
  write_stops s =
      let t = set_ready false s in
      ok (break (rearm_epoll (if would_block t.io.errno then false else true) t))

  abbrev pub wrote : Handling W → Outcome (Step (Handling W) (Handling W))
  wrote s =
      if leb s.conn.read_index s.conn.write_index
      then ok (break (rearm_epoll true (set_ready false s)))
      else ok (continue s)

  abbrev pub after_write : Handling W → Reply ℕ → Outcome (Step (Handling W) (Handling W))
  after_write s (returned zero) = write_stops s
  after_write s (returned (suc n)) =
      wrote (record s { conn = record s.conn { write_index = s.conn.write_index + suc n } })
  after_write s (failed e) = write_stops s

  abbrev pub sending : Handling W → Option (List ℕ) → Outcome (Step (Handling W) (Handling W))
  sending s none = undefined out_of_bounds
  sending s (some bytes) =
      let (r, io) = sys_write os s.conn.conn_fd bytes s.io in after_write (record s { io = io }) r

  abbrev pub write_body : Handling W → Outcome (Step (Handling W) (Handling W))
  write_body s = sending s (slice s.conn.buffer s.conn.write_index (write_count s.conn))

  unfoldable pub read_loop : ℕ → Handling W → Outcome (ReadEnd W)
  read_loop fuel s = repeat fuel read_body s

  unfoldable pub write_loop : ℕ → Handling W → Outcome (Handling W)
  write_loop fuel s = repeat fuel write_body s

  -- The second `if` of the handler.
  unfoldable pub write_part : ℕ → Handling W → Outcome (Handling W)
  write_part fuel s = if s.conn.ready_for_write then write_loop fuel s else ok s

  abbrev pub after_reading : ℕ → ReadEnd W → Outcome (Handling W)
  after_reading fuel (left s) = write_part fuel s
  after_reading fuel (gave_up s) = ok s

  -- `fuel` bounds the rounds of each loop.
  unfoldable pub handle_connection_event : ℕ → Handling W → Outcome (Handling W)
  handle_connection_event fuel s =
      if s.conn.ready_for_write
      then write_part fuel s
      else (read_loop fuel s >>= after_reading fuel)
