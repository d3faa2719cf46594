-- ===== src/EventLoop.antt =====
-- src/utilities/server_utility.cpp: `epoll_event_loop`. The clients' data is read and only logged;
-- commented-out code and logging are left out, and so is the prefix of the messages. An exception
-- carries the state of the scope that it leaves.
pub mod Drained
use Prim.Native.String.{String}
use linux_tcp_servers.Common.{
  ℕ, ℤ, ◌==ℤ◌, if◌then◌else◌, Bool, true, bit_or, List, [], ◌∷◌, none, some, Result, leaving, ok,
  thrown, undefined, dangling, ◌>>=◌, Step, continue, break, repeat,
}
use linux_tcp_servers.Os.{
  Os, Io, Reply, returned, failed, would_block, EpollEvent, EpollData, ptr, fd, ctl_add, ctl_mod,
  ctl_del, sys_accept, sys_read, sys_close, sys_epoll_ctl, sys_epoll_wait,
}
use linux_tcp_servers.Os.Flags.{epollin, epollet, epolloneshot, epollrdhup, has}
use linux_tcp_servers.Setup.{as_int}
use linux_tcp_servers.Descriptor.{FdClass}

-- BUFF_SIZE and MAX_EVENTS
abbrev pub chunk_size : ℕ
chunk_size = 1000

abbrev pub loop_max_events : ℕ
loop_max_events = 10000

abbrev pub client_event : ℤ → EpollEvent
client_event n = record {
  events = bit_or (bit_or (bit_or epollin epollrdhup) epollet) epolloneshot;
  data_of = fd n;
}

-- An address is read as no descriptor.
abbrev pub event_fd : {E : Type 0} → EpollData → Result E ℤ
event_fd (fd n) = ok n
event_fd (ptr p) = undefined dangling

pub record Taking (W Fd : Type 0) : Type 0 where
  pub io : Io W
  pub client_sfd : Fd

module _ {W Fd : Type 0} (os : Os W) (cls : FdClass W Fd) (server_sfd epoll_fd : Fd) where
  abbrev pub client_registered :
      Taking W Fd
      → Reply (Unit {0}) × Io W
      → Result (String × Taking W Fd) (Step (Taking W Fd) (Taking W Fd))
  client_registered a (returned u, io) = ok (continue (record a { io = io }))
  client_registered a (failed e, io) = thrown ("epoll_ctl() failed", record a { io = io })

  abbrev pub register_client :
      Taking W Fd → Result (String × Taking W Fd) (Step (Taking W Fd) (Taking W Fd))
  register_client a =
      let n = cls.get_fd a.client_sfd in
      client_registered a
        (sys_epoll_ctl os (cls.get_fd epoll_fd) ctl_add n (some (client_event n)) a.io)

  abbrev pub no_more_clients :
      Taking W Fd → Result (String × Taking W Fd) (Step (Taking W Fd) (Taking W Fd))
  no_more_clients a =
      if would_block a.io.errno
      then ok (break a)
      else thrown ("Could not accept a new connection", a)

  abbrev pub client_taken :
      (Bool × Fd) × Io W → Result (String × Taking W Fd) (Step (Taking W Fd) (Taking W Fd))
  client_taken ((good, client), io) =
      if good
      then register_client (record { io = io; client_sfd = client })
      else no_more_clients (record { io = io; client_sfd = client })

  abbrev pub take_body :
      Taking W Fd → Result (String × Taking W Fd) (Step (Taking W Fd) (Taking W Fd))
  take_body a =
      let (r, io) = sys_accept os (cls.get_fd server_sfd) true a.io in
      client_taken (cls.set_fd (as_int r) a.client_sfd io)

  -- The end of the scope of `client_sfd`.
  abbrev pub drop_taking : Taking W Fd → Io W
  drop_taking a = cls.destroy a.client_sfd a.io

  -- An event of the listening socket.
  unfoldable pub take_clients : ℕ → Io W → Result (String × Io W) (Io W)
  take_clients fuel io =
      leaving (λ x. (x.0, drop_taking x.1)) drop_taking
        (repeat fuel take_body (record { io = io; client_sfd = cls.empty }))

  abbrev pub client_rearmed : Reply (Unit {0}) × Io W → Result (String × Io W) (Step (Io W) (Io W))
  client_rearmed (returned u, io) = ok (break io)
  client_rearmed (failed e, io) = thrown ("epoll_ctl() failed", io)

  abbrev pub read_ends : ℤ → Io W → Result (String × Io W) (Step (Io W) (Io W))
  read_ends n io =
      if would_block io.errno
      then client_rearmed
          (sys_epoll_ctl os (cls.get_fd epoll_fd) ctl_mod n (some (client_event n)) io)
      else ok (break io)

  abbrev pub after_chunk : ℤ → Reply (List ℕ) × Io W → Result (String × Io W) (Step (Io W) (Io W))
  after_chunk n (failed e, io) = read_ends n io
  after_chunk n (returned [], io) = ok (break io)
  after_chunk n (returned (b ∷ bytes), io) = ok (continue io)

  abbrev pub chunk_body : ℤ → Io W → Result (String × Io W) (Step (Io W) (Io W))
  chunk_body n io = after_chunk n (sys_read os n chunk_size io)

  unfoldable pub read_chunks : ℕ → ℤ → Io W → Result (String × Io W) (Io W)
  read_chunks fuel n io = repeat fuel (chunk_body n) io

  -- An event of a client's socket.
  unfoldable pub read_client : ℕ → ℤ → Io W → Result (String × Io W) (Io W)
  read_client fuel n io =
      let client = cls.holding n in
      leaving (λ x. (x.0, cls.destroy client x.1)) (cls.destroy client)
        (read_chunks fuel (cls.get_fd client) io)

  abbrev pub close_client : ℤ → Io W → Io W
  close_client n io = sys_close os n (sys_epoll_ctl os (cls.get_fd epoll_fd) ctl_del n none io).1

  abbrev pub readable :
      (ℤ → Io W → Result (String × Io W) (Io W)) → ℕ → ℤ → Io W → Result (String × Io W) (Io W)
  readable reader fuel n io =
      if n ==ℤ cls.get_fd server_sfd then take_clients fuel io else reader n io

  -- EPOLLERR, EPOLLHUP and EPOLLOUT are only logged. `reader` is what is done with a client's data.
  abbrev pub on_event :
      (ℤ → Io W → Result (String × Io W) (Io W)) → ℕ → ℕ → Io W → ℤ → Result (String × Io W) (Io W)
  on_event reader fuel events io n =
      if has events epollrdhup
      then ok (close_client n io)
      else if has events epollin
      then readable reader fuel n io
      else ok io

  unfoldable pub event_all :
      (ℤ → Io W → Result (String × Io W) (Io W))
      → ℕ
      → List EpollEvent
      → Io W
      → Result (String × Io W) (Io W)
  event_all reader fuel [] io = ok io
  event_all reader fuel (e ∷ es) io =
      (event_fd e.data_of >>= on_event reader fuel e.events io) >>= λ t. event_all reader fuel es t

  abbrev pub events_reported :
      (ℤ → Io W → Result (String × Io W) (Io W))
      → ℕ
      → Reply (List EpollEvent) × Io W
      → Result (String × Io W) (Io W)
  events_reported reader fuel (failed e, io) = thrown ("epoll_wait() failed", io)
  events_reported reader fuel (returned es, io) = event_all reader fuel es io

  abbrev pub round_with :
      (ℤ → Io W → Result (String × Io W) (Io W)) → ℕ → Io W → Result (String × Io W) (Io W)
  round_with reader fuel io =
      events_reported reader fuel (sys_epoll_wait os (cls.get_fd epoll_fd) loop_max_events io)

  -- One round of `epoll_event_loop`.
  unfoldable pub event_round : ℕ → Io W → Result (String × Io W) (Io W)
  event_round fuel io = round_with (read_client fuel) fuel io
