-- ===== src/Os.antt =====
-- The operating system that every server calls. It is no part of the repository, so its state `W`
-- and its answers are a parameter: the record `Os`. What the servers rely on is in `Os/Laws`.
-- `Io` is what one thread sees of it: its `errno`, and the trace of its calls, newest first.
pub mod Laws
pub mod Kernel
pub mod Flags
pub mod Sockets
use Prim.Native.String.{String}
use linux_tcp_servers.Common.{ℕ, ℤ, Bool, true, false, List, ◌∷◌, Option}

-- On Linux EAGAIN and EWOULDBLOCK are one number; the sources test for both.
pub data Errno : Type 0 where
  eagain ewouldblock : Errno
  other : ℕ → Errno

abbrev pub would_block : Errno → Bool
would_block eagain = true
would_block ewouldblock = true
would_block (other n) = false

-- What a call returns: a value, or -1 with an error number.
pub data Reply (A : Type 0) : Type 0 where
  returned : A → Reply A
  failed : Errno → Reply A

-- The union `epoll_data_t`; a pointer is an address, or null.
pub data EpollData : Type 0 where
  ptr : Option ℕ → EpollData
  fd : ℤ → EpollData

pub record EpollEvent : Type 0 where
  pub events : ℕ
  pub data_of : EpollData

pub data CtlOp : Type 0 where
  ctl_add ctl_mod ctl_del : CtlOp

-- An entry of the list that `getaddrinfo` returns.
pub record AddrInfo : Type 0 where
  pub family : ℕ
  pub socktype : ℕ
  pub protocol : ℕ
  pub addr : ℕ

-- The signatures of the system calls: their arguments, and the new state of the system.
pub record Os (W : Type 0) : Type 0 where
  pub accept : W → ℤ → Bool → Reply ℕ × W
  pub read : W → ℤ → ℕ → Reply (List ℕ) × W
  pub write : W → ℤ → List ℕ → Reply ℕ × W
  pub close : W → ℤ → W
  pub epoll_create : W → Reply ℕ × W
  pub epoll_ctl : W → ℤ → CtlOp → ℤ → Option EpollEvent → Reply (Unit {0}) × W
  pub epoll_wait : W → ℤ → ℕ → Reply (List EpollEvent) × W
  pub select : W → ℕ → List ℕ → Reply (List ℕ) × W
  pub getaddrinfo : W → String → Reply (List AddrInfo) × W
  pub socket : W → ℕ → ℕ → ℕ → Reply ℕ × W
  pub setsockopt : W → ℤ → ℕ → W
  pub bind : W → ℤ → ℕ → Reply (Unit {0}) × W
  pub listen : W → ℤ → ℤ → Reply (Unit {0}) × W
  -- fork(2) returns in two processes: 0 in the child, and the child's number in the parent.
  pub fork : W → Reply ℕ × W
  pub gethostbyname : W → String → Option ℕ × W
  pub connect : W → ℤ → ℕ → ℕ → Reply (Unit {0}) × W
  -- fcntl(2) with F_GETFL and F_SETFL.
  pub get_flags : W → ℤ → Reply ℕ × W
  pub set_flags : W → ℤ → ℕ → Reply (Unit {0}) × W

pub data Call : Type 0 where
  accept_call : ℤ → Reply ℕ → Call
  read_call : ℤ → ℕ → Reply (List ℕ) → Call
  write_call : ℤ → List ℕ → Reply ℕ → Call
  close_call : ℤ → Call
  create_call : Reply ℕ → Call
  ctl_call : ℤ → CtlOp → ℤ → Option EpollEvent → Reply (Unit {0}) → Call
  wait_call : ℤ → Reply (List EpollEvent) → Call
  select_call : ℕ → List ℕ → Reply (List ℕ) → Call
  addr_call : String → Reply (List AddrInfo) → Call
  socket_call : ℕ → ℕ → ℕ → Reply ℕ → Call
  option_call : ℤ → ℕ → Call
  bind_call : ℤ → ℕ → Reply (Unit {0}) → Call
  listen_call : ℤ → ℤ → Reply (Unit {0}) → Call
  fork_call : Reply ℕ → Call
  host_call : String → Option ℕ → Call
  connect_call : ℤ → ℕ → ℕ → Reply (Unit {0}) → Call
  get_flags_call : ℤ → Reply ℕ → Call
  set_flags_call : ℤ → ℕ → Reply (Unit {0}) → Call

pub record Io (W : Type 0) : Type 0 where
  pub world : W
  pub errno : Errno
  pub trace : List Call

-- A failing call sets `errno`; one that succeeds leaves it.
abbrev pub errno_after : {A : Type 0} → Errno → Reply A → Errno
errno_after old (returned a) = old
errno_after old (failed e) = e

abbrev pub record_call : {W A : Type 0} → Io W → (Reply A → Call) → Reply A × W → Reply A × Io W
record_call io call (r, w) =
    (r, record { world = w; errno = errno_after io.errno r; trace = call r ∷ io.trace })

module _ {W : Type 0} (os : Os W) where
  abbrev pub sys_accept : ℤ → Bool → Io W → Reply ℕ × Io W
  sys_accept sfd nonblock io = record_call io (accept_call sfd) (os.accept io.world sfd nonblock)

  abbrev pub sys_read : ℤ → ℕ → Io W → Reply (List ℕ) × Io W
  sys_read sfd count io = record_call io (read_call sfd count) (os.read io.world sfd count)

  abbrev pub sys_write : ℤ → List ℕ → Io W → Reply ℕ × Io W
  sys_write sfd bytes io = record_call io (write_call sfd bytes) (os.write io.world sfd bytes)

  abbrev pub sys_close : ℤ → Io W → Io W
  sys_close sfd io = record io { world = os.close io.world sfd; trace = close_call sfd ∷ io.trace }

  abbrev pub sys_epoll_create : Io W → Reply ℕ × Io W
  sys_epoll_create io = record_call io create_call (os.epoll_create io.world)

  abbrev pub sys_epoll_ctl : ℤ → CtlOp → ℤ → Option EpollEvent → Io W → Reply (Unit {0}) × Io W
  sys_epoll_ctl epfd op sfd event io =
      record_call io (ctl_call epfd op sfd event) (os.epoll_ctl io.world epfd op sfd event)

  abbrev pub sys_epoll_wait : ℤ → ℕ → Io W → Reply (List EpollEvent) × Io W
  sys_epoll_wait epfd max_events io =
      record_call io (wait_call epfd) (os.epoll_wait io.world epfd max_events)

  abbrev pub sys_select : ℕ → List ℕ → Io W → Reply (List ℕ) × Io W
  sys_select nfds set io = record_call io (select_call nfds set) (os.select io.world nfds set)

  abbrev pub sys_getaddrinfo : String → Io W → Reply (List AddrInfo) × Io W
  sys_getaddrinfo port io = record_call io (addr_call port) (os.getaddrinfo io.world port)

  abbrev pub sys_socket : ℕ → ℕ → ℕ → Io W → Reply ℕ × Io W
  sys_socket family socktype protocol io =
      record_call io (socket_call family socktype protocol)
        (os.socket io.world family socktype protocol)

  abbrev pub sys_setsockopt : ℤ → ℕ → Io W → Io W
  sys_setsockopt sfd option io = record io {
    world = os.setsockopt io.world sfd option;
    trace = option_call sfd option ∷ io.trace;
  }

  abbrev pub sys_bind : ℤ → ℕ → Io W → Reply (Unit {0}) × Io W
  sys_bind sfd addr io = record_call io (bind_call sfd addr) (os.bind io.world sfd addr)

  abbrev pub sys_listen : ℤ → ℤ → Io W → Reply (Unit {0}) × Io W
  sys_listen sfd backlog io =
      record_call io (listen_call sfd backlog) (os.listen io.world sfd backlog)

  abbrev pub sys_fork : Io W → Reply ℕ × Io W
  sys_fork io = record_call io fork_call (os.fork io.world)

  -- A failure is told by `h_errno`, not by `errno`.
  abbrev pub sys_gethostbyname : String → Io W → Option ℕ × Io W
  sys_gethostbyname name io =
      let (host, w) = os.gethostbyname io.world name in
      (host, record io { world = w; trace = host_call name host ∷ io.trace })

  abbrev pub sys_connect : ℤ → ℕ → ℕ → Io W → Reply (Unit {0}) × Io W
  sys_connect sfd host port io =
      record_call io (connect_call sfd host port) (os.connect io.world sfd host port)

  abbrev pub sys_get_flags : ℤ → Io W → Reply ℕ × Io W
  sys_get_flags sfd io = record_call io (get_flags_call sfd) (os.get_flags io.world sfd)

  abbrev pub sys_set_flags : ℤ → ℕ → Io W → Reply (Unit {0}) × Io W
  sys_set_flags sfd flags io =
      record_call io (set_flags_call sfd flags) (os.set_flags io.world sfd flags)
