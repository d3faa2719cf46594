-- ===== src/Server.antt =====
-- src/servers/multi_worker_nonblocking_io_multiplexing_server.h: the server object and its `start`,
-- up to the joining of the threads. A thread keeps `this`, an epoll descriptor and its number, and
-- reads the member `server_sfd_` when it starts to run, whatever it then is: `worker_of`.
pub mod Launch
pub mod Schedule
pub mod Fresh
pub mod Sockets
pub mod Start
pub mod Main
pub mod Interleave
use Prim.Native.String.{String}
use linux_tcp_servers.Common.{
  ◌++◌, ℕ, zero, suc, ℤ, pos, negsuc, if◌then◌else◌, Bool, true, false, bit_or, List, [], ◌∷◌,
  Option, some,
}
use linux_tcp_servers.Os.{
  Os, Io, Reply, returned, failed, EpollEvent, ptr, ctl_add, sys_epoll_create, sys_epoll_ctl,
  sys_close,
}
use linux_tcp_servers.Os.Flags.{epollin, epollexclusive}
use linux_tcp_servers.Manager.{Manager, no_connections, insert}
use linux_tcp_servers.Setup.{Setup, SetupError, listening, raised, setup_server_tcp_socket}
use linux_tcp_servers.Worker.{Worker}

-- What a worker thread captures by value.
pub record Thread : Type 0 where
  pub epoll_fd : ℤ
  pub worker_id : ℕ

-- A negative `worker_num_` starts no thread, like 0.
pub record Server : Type 0 where
  pub server_sfd : ℤ
  pub port_num : String
  pub backlog : ℤ
  pub worker_num : ℕ
  pub reuse_port : Bool
  pub data_manager : Manager
  pub workers_threads : List Thread

-- The constructor.
unfoldable pub server : String → ℤ → ℕ → Bool → Server
server port_num backlog worker_num reuse_port = record {
  server_sfd = negsuc 0;
  port_num = port_num;
  backlog = backlog;
  worker_num = worker_num;
  reuse_port = reuse_port;
  data_manager = no_connections;
  workers_threads = [];
}

-- The worker that a thread makes of the server as it finds it.
abbrev pub worker_of : Server → Thread → Worker
worker_of s t = record { server_sfd = s.server_sfd; epoll_fd = t.epoll_fd }

pub data LaunchError : Type 0 where
  setup_failed : SetupError → LaunchError
  epoll_create_failed epoll_ctl_failed : LaunchError

-- The server with all its threads, before it joins them; or, after an exception, the process exits.
pub data LaunchResult (W : Type 0) : Type 0 where
  launched : Server → Io W → LaunchResult W
  exited : LaunchError → Io W → LaunchResult W

module _ {W : Type 0} (os : Os W) where
  -- The handler of the exceptions.
  abbrev pub give_up : LaunchError → Server → Io W → LaunchResult W
  give_up e s io = exited e (sys_close os s.server_sfd io)

  -- `server_sfd_ = setupServerTcpSocket(...)`; a setup that throws does not assign.
  abbrev pub after_setup : Server → (Server → Io W → LaunchResult W) → Setup W → LaunchResult W
  after_setup s next (listening sfd io) = next (record s { server_sfd = sfd }) io
  after_setup s next (raised e io) = give_up (setup_failed e) s io

  abbrev pub set_up : Bool → Server → Io W → (Server → Io W → LaunchResult W) → LaunchResult W
  set_up reuse s io next =
      after_setup s next (setup_server_tcp_socket os s.port_num s.backlog true reuse io)

  abbrev pub listen_event : Option ℕ → EpollEvent
  listen_event p = record { events = bit_or epollin epollexclusive; data_of = ptr p }

  abbrev pub after_ctl :
      ℤ → Server → (ℤ → Server → Io W → LaunchResult W) → Reply (Unit {0}) × Io W → LaunchResult W
  after_ctl epfd s next (returned u, io) = next epfd s io
  after_ctl epfd s next (failed e, io) = give_up epoll_ctl_failed s io

  abbrev pub after_create :
      Server → (ℤ → Server → Io W → LaunchResult W) → Reply ℕ × Io W → LaunchResult W
  after_create s next (failed e, io) = give_up epoll_create_failed s io
  after_create s next (returned n, io) =
      let (p, m) = insert s.server_sfd s.data_manager in
      after_ctl (pos n) (record s { data_manager = m }) next
        (sys_epoll_ctl os (pos n) ctl_add s.server_sfd (some (listen_event p)) io)

  -- The epoll descriptor, with the listening socket registered under a pointer of the manager.
  abbrev pub make_epoll : Server → Io W → (ℤ → Server → Io W → LaunchResult W) → LaunchResult W
  make_epoll s io next = after_create s next (sys_epoll_create os io)

  abbrev pub spawn : ℤ → ℕ → Server → Server
  spawn epoll_fd i s = record s {
    workers_threads = s.workers_threads ++ (record { epoll_fd = epoll_fd; worker_id = i } ∷ []);
  }

  -- With `reuse_port_`: a socket and an epoll descriptor for each thread, then one more socket. The
  -- reuse option is `false` in the loop and `true` after it.
  unfoldable pub launch_reusing : ℕ → ℕ → Server → Io W → LaunchResult W
  launch_reusing zero i s io = set_up true s io launched
  launch_reusing (suc n) i s io = set_up false s io (λ t io'.
      make_epoll t io' (λ epoll_fd u io''. launch_reusing n (suc i) (spawn epoll_fd i u) io''))

  unfoldable pub spawn_all : ℕ → ℕ → ℤ → Server → Server
  spawn_all zero i epoll_fd s = s
  spawn_all (suc n) i epoll_fd s = spawn_all n (suc i) epoll_fd (spawn epoll_fd i s)

  abbrev pub launch_sharing : Server → Io W → LaunchResult W
  launch_sharing s io = set_up false s io (λ t io'.
      make_epoll t io' (λ epoll_fd u io''. launched (spawn_all u.worker_num 0 epoll_fd u) io''))

  -- `start`, up to the joining of the threads.
  unfoldable pub launch : Server → Io W → LaunchResult W
  launch s io = if s.reuse_port then launch_reusing s.worker_num 0 s io else launch_sharing s io
