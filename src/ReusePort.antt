-- ===== src/ReusePort.antt =====
-- src/servers/multi_worker_reuseport_nonblocking_io_multiplexing_server.h: `epoll_event_loop`, a copy
-- of the utilities' loop that gives the clients' data to a handler, translated on its own. It lacks the
-- `break` at the end of the stream. Logging is left out, and so is the prefix of the messages.
pub mod Forever
pub mod Workers
pub mod Processes
pub mod Agrees
use Prim.Native.String.{String}
use linux_tcp_servers.Common.{
  ℕ, ℤ, ◌==ℤ◌, if◌then◌else◌, Bool, true, bit_or, List, [], ◌∷◌, none, some, Result, leaving, ok,
  thrown, ◌>>=◌, Step, continue, break, repeat,
}
use linux_tcp_servers.Os.{
  Os, Io, Reply, returned, failed, would_block, EpollEvent, fd, ctl_add, ctl_mod, ctl_del,
  sys_accept, sys_read, sys_close, sys_epoll_ctl, sys_epoll_wait,
}
use linux_tcp_servers.Os.Flags.{epollin, epollet, epolloneshot, epollrdhup, has}
use linux_tcp_servers.Setup.{as_int}
use linux_tcp_servers.Descriptor.{FdClass}
use linux_tcp_servers.EventLoop.{chunk_size, event_fd, Taking}

-- MAX_EVENTS
abbrev pub worker_max_events : ℕ
worker_max_events = 10000

abbrev pub one_shot_event : ℤ → EpollEvent
one_shot_event n = record {
  events = bit_or (bit_or (bit_or epollin epollrdhup) epollet) epolloneshot;
  data_of = fd n;
}

-- `read_handler` is the member `_read_handler`, given at the construction of the server.
module _ {W Fd : Type 0} (os : Os W) (cls : FdClass W Fd) (server_sfd epoll_fd : Fd)
    (read_handler : List ℕ → Io W → Io W) where
  abbrev pub client_added :
      Taking W Fd
      → Reply (Unit {0}) × Io W
      → Result (String × Taking W Fd) (Step (Taking W Fd) (Taking W Fd))
  client_added a (returned u, io) = ok (continue (record a { io = io }))
  client_added a (failed e, io) = thrown ("epoll_ctl() failed", record a { io = io })

  abbrev pub watch_client :
      Taking W Fd → Result (String × Taking W Fd) (Step (Taking W Fd) (Taking W Fd))
  watch_client a =
      let n = cls.get_fd a.client_sfd in
      client_added a
        (sys_epoll_ctl os (cls.get_fd epoll_fd) ctl_add n (some (one_shot_event n)) a.io)

  abbrev pub nobody_left :
      Taking W Fd → Result (String × Taking W Fd) (Step (Taking W Fd) (Taking W Fd))
  nobody_left a =
      if would_block a.io.errno
      then ok (break a)
      else thrown ("Could not accept a new connection", a)

  abbrev pub connection_taken :
      (Bool × Fd) × Io W → Result (String × Taking W Fd) (Step (Taking W Fd) (Taking W Fd))
  connection_taken ((good, client), io) =
      if good
      then watch_client (record { io = io; client_sfd = client })
      else nobody_left (record { io = io; client_sfd = client })

  abbrev pub connection_body :
      Taking W Fd → Result (String × Taking W Fd) (Step (Taking W Fd) (Taking W Fd))
  connection_body a =
      let (r, io) = sys_accept os (cls.get_fd server_sfd) true a.io in
      connection_taken (cls.set_fd (as_int r) a.client_sfd io)

  -- The end of the scope of `client_sfd`.
  abbrev pub scope_ends : Taking W Fd → Io W
  scope_ends a = cls.destroy a.client_sfd a.io

  -- An event of the listening socket.
  unfoldable pub take_connections : ℕ → Io W → Result (String × Io W) (Io W)
  take_connections fuel io =
      leaving (λ x. (x.0, scope_ends x.1)) scope_ends
        (repeat fuel connection_body (record { io = io; client_sfd = cls.empty }))

  abbrev pub armed_again : Reply (Unit {0}) × Io W → Result (String × Io W) (Step (Io W) (Io W))
  armed_again (returned u, io) = ok (break io)
  armed_again (failed e, io) = thrown ("epoll_ctl() failed", io)

  abbrev pub nothing_read : ℤ → Io W → Result (String × Io W) (Step (Io W) (Io W))
  nothing_read n io =
      if would_block io.errno
      then armed_again
          (sys_epoll_ctl os (cls.get_fd epoll_fd) ctl_mod n (some (one_shot_event n)) io)
      else ok (break io)

  abbrev pub handed_on : ℤ → Reply (List ℕ) × Io W → Result (String × Io W) (Step (Io W) (Io W))
  handed_on n (failed e, io) = nothing_read n io
  handed_on n (returned bytes, io) = ok (continue (read_handler bytes io))

  abbrev pub handling_body : ℤ → Io W → Result (String × Io W) (Step (Io W) (Io W))
  handling_body n io = handed_on n (sys_read os n chunk_size io)

  unfoldable pub handle_chunks : ℕ → ℤ → Io W → Result (String × Io W) (Io W)
  handle_chunks fuel n io = repeat fuel (handling_body n) io

  unfoldable pub handle_client : ℕ → ℤ → Io W → Result (String × Io W) (Io W)
  handle_client fuel n io =
      let client = cls.holding n in
      leaving (λ x. (x.0, cls.destroy client x.1)) (cls.destroy client)
        (handle_chunks fuel (cls.get_fd client) io)

  abbrev pub remove_client : ℤ → Io W → Io W
  remove_client n io = sys_close os n (sys_epoll_ctl os (cls.get_fd epoll_fd) ctl_del n none io).1

  abbrev pub handle_input : ℕ → ℤ → Io W → Result (String × Io W) (Io W)
  handle_input fuel n io =
      if n ==ℤ cls.get_fd server_sfd then take_connections fuel io else handle_client fuel n io

  -- EPOLLERR, EPOLLHUP and EPOLLOUT are only logged.
  abbrev pub handle_event : ℕ → ℕ → Io W → ℤ → Result (String × Io W) (Io W)
  handle_event fuel events io n =
      if has events epollrdhup
      then ok (remove_client n io)
      else if has events epollin
      then handle_input fuel n io
      else ok io

  unfoldable pub handle_events : ℕ → List EpollEvent → Io W → Result (String × Io W) (Io W)
  handle_events fuel [] io = ok io
  handle_events fuel (e ∷ es) io =
      (event_fd e.data_of >>= handle_event fuel e.events io) >>= λ t. handle_events fuel es t

  abbrev pub events_found : ℕ → Reply (List EpollEvent) × Io W → Result (String × Io W) (Io W)
  events_found fuel (failed e, io) = thrown ("epoll_wait() failed", io)
  events_found fuel (returned es, io) = handle_events fuel es io

  -- One round of `epoll_event_loop`.
  unfoldable pub handling_round : ℕ → Io W → Result (String × Io W) (Io W)
  handling_round fuel io =
      events_found fuel (sys_epoll_wait os (cls.get_fd epoll_fd) worker_max_events io)
