-- ===== src/Worker.antt =====
-- src/servers/multi_worker_nonblocking_io_multiplexing_server.h: `Worker`, the event loop of one
-- thread. The handler of a connection is in `Connection`, the shared map in `Manager`.
-- A pointer that is null, or whose object has been freed, makes the run undefined.
-- `worker_id_` and the prefix of the log lines have no effect here.
pub mod Invariant
pub mod Accept
pub mod Handle
pub mod Dispatch
pub mod Rounds
use linux_tcp_servers.Common.{
  ℕ, zero, suc, ℤ, pos, negsuc, is_negative, ◌==ℤ◌, if◌then◌else◌, Bool, true, false, bit_or, List,
  [], ◌∷◌, Option, none, some, Outcome, ok, thrown, undefined, dangling, null_pointer, ◌>>=◌, Step,
  continue, break, repeat,
}
use linux_tcp_servers.Os.{
  Os, Io, Reply, returned, failed, EpollEvent, EpollData, ptr, fd, ctl_add, ctl_del, sys_accept,
  sys_close, sys_epoll_ctl, sys_epoll_wait,
}
use linux_tcp_servers.Os.Flags.{epollin, epollet, epolloneshot, epollerr, epollhup, epollrdhup, has}
use linux_tcp_servers.Connection.{ConnectionData, Handling, handle_connection_event}
use linux_tcp_servers.Manager.{Manager, insert, remove, assign}

abbrev pub max_events : ℕ
max_events = 100000

pub record Worker : Type 0 where
  pub server_sfd : ℤ
  pub epoll_fd : ℤ

-- What a worker works on: the system, and the manager that the workers share.
pub record Shared (W : Type 0) : Type 0 where
  pub io : Io W
  pub manager : Manager

abbrev pub deref_live : ℕ → Option ConnectionData → Outcome (ℕ × ConnectionData)
deref_live p none = undefined dangling
deref_live p (some c) = ok (p, c)

-- The object behind a pointer.
abbrev pub deref : Manager → Option ℕ → Outcome (ℕ × ConnectionData)
deref m none = undefined null_pointer
deref m (some p) = deref_live p (m.heap p)

-- The member `ptr` of the union; a descriptor that is read as a pointer points nowhere.
abbrev pub pointer_of : Manager → EpollData → Outcome (ℕ × ConnectionData)
pointer_of m (ptr p) = deref m p
pointer_of m (fd n) = undefined dangling

module _ {W : Type 0} (os : Os W) (w : Worker) where
  abbrev pub accept_event : Option ℕ → EpollEvent
  accept_event p = record { events = bit_or (bit_or epollin epollet) epolloneshot; data_of = ptr p }

  -- A failed registration ends the loop; the descriptor stays open and in the map.
  abbrev pub registered : Shared W → Reply (Unit {0}) → Outcome (Step (Shared W) (Shared W))
  registered s (returned u) = ok (continue s)
  registered s (failed e) = ok (break s)

  abbrev pub after_accept : Shared W → Reply ℕ → Outcome (Step (Shared W) (Shared W))
  after_accept s (failed e) = ok (break s)
  after_accept s (returned n) =
      let (p, m) = insert (pos n) s.manager in
      let (r, io) = sys_epoll_ctl os w.epoll_fd ctl_add (pos n) (some (accept_event p)) s.io in
      registered (record { io = io; manager = m }) r

  abbrev pub accept_body : Shared W → Outcome (Step (Shared W) (Shared W))
  accept_body s =
      let (r, io) = sys_accept os w.server_sfd true s.io in after_accept (record s { io = io }) r

  -- `acceptConnections`; its arguments are only logged.
  unfoldable pub accept_connections : ℕ → Shared W → Outcome (Shared W)
  accept_connections fuel s = repeat fuel accept_body s

  -- The end of `closeConnection`: `conn_fd` is a reference into the object behind `p`.
  abbrev pub shut_down : Shared W → ℕ × ConnectionData → Outcome (Shared W)
  shut_down s (p, c) =
      let (r, io) = sys_epoll_ctl os w.epoll_fd ctl_del c.conn_fd none s.io in
      ok (record {
        io = sys_close os c.conn_fd io;
        manager = assign p (record c { conn_fd = negsuc 0 }) s.manager;
      })

  -- `closeConnection`, on the descriptor of the object `c` behind `p`.
  unfoldable pub close_connection : ℕ → ConnectionData → Shared W → Outcome (Shared W)
  close_connection p c s =
      if is_negative c.conn_fd
      then ok s
      else (let m = remove c.conn_fd s.manager in
          deref m (some p) >>= shut_down (record s { manager = m }))

  -- `handleConnectionEvent` works on the object in place.
  unfoldable pub handle : ℕ → ℕ → ConnectionData → Shared W → Outcome (Shared W)
  handle fuel p c s =
      handle_connection_event os w.epoll_fd p fuel (record { io = s.io; conn = c }) >>= λ h.
      ok (record { io = h.io; manager = assign p h.conn s.manager })

  -- An event of a connection, by its flags.
  unfoldable pub connection_event : ℕ → ℕ → ℕ → ConnectionData → Shared W → Outcome (Shared W)
  connection_event fuel events p c s =
      if has events epollerr
      then close_connection p c s
      else if has events epollrdhup
      then close_connection p c s
      else if has events epollhup
      then ok s
      else handle fuel p c s

  abbrev pub event_on : ℕ → ℕ → Shared W → ℕ × ConnectionData → Outcome (Shared W)
  event_on fuel events s (p, c) =
      if c.conn_fd ==ℤ w.server_sfd
      then accept_connections fuel s
      else connection_event fuel events p c s

  -- The body of the loop over the events.
  unfoldable pub dispatch : ℕ → EpollEvent → Shared W → Outcome (Shared W)
  dispatch fuel e s = pointer_of s.manager e.data_of >>= event_on fuel e.events s

  unfoldable pub dispatch_all : ℕ → List EpollEvent → Shared W → Outcome (Shared W)
  dispatch_all fuel [] s = ok s
  dispatch_all fuel (e ∷ es) s = dispatch fuel e s >>= λ t. dispatch_all fuel es t

  abbrev pub after_wait : ℕ → Shared W → Reply (List EpollEvent) → Outcome (Shared W)
  after_wait fuel s (failed e) = thrown "epoll_wait() failed"
  after_wait fuel s (returned es) = dispatch_all fuel es s

  -- One round of `start`.
  unfoldable pub round : ℕ → Shared W → Outcome (Shared W)
  round fuel s =
      let (r, io) = sys_epoll_wait os w.epoll_fd max_events s.io in
      after_wait fuel (record s { io = io }) r

  -- `start` never returns: this is where it stands after `n` rounds.
  unfoldable pub start : ℕ → ℕ → Shared W → Outcome (Shared W)
  start zero fuel s = ok s
  start (suc n) fuel s = round fuel s >>= λ t. start n fuel t
