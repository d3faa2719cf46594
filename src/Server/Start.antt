-- ===== src/Server/Start.antt =====
-- From the start of the process to the rounds of its workers.
use Prim.Native.String.{String}
use linux_tcp_servers.Common.{
  ℕ, zero, suc, ℤ, pos, ◌≡◌, refl, Bool, true, false, [], ◌∷◌, some, if_rule,
}
use linux_tcp_servers.Os.{
  Os, Io, Reply, returned, failed, EpollData, errno_after, ctl_add, create_call, sys_epoll_ctl,
}
use linux_tcp_servers.Os.Kernel.{Kernel}
use linux_tcp_servers.Os.Sockets.{Sockets, NewLaw}
use linux_tcp_servers.Connection.History.{received, sent}
use linux_tcp_servers.Manager.{no_connections, insert}
use linux_tcp_servers.Manager.Invariant.{no_connections-IsValid}
use linux_tcp_servers.Setup.{Setup, listening, raised, setup_server_tcp_socket}
use linux_tcp_servers.Worker.Invariant.{IsSound}
use linux_tcp_servers.Worker.Accept.{register-IsSound}
use linux_tcp_servers.Server.{
  Server, LaunchResult, launched, exited, after_setup, set_up, listen_event, after_ctl,
  after_create, make_epoll, spawn, launch_reusing, spawn_all, launch_sharing, launch, server,
}
use linux_tcp_servers.Server.Launch.{IsStaffed, launch-IsStaffed}
use linux_tcp_servers.Server.Fresh.{IsFresh, IsFresh-Stays}
use linux_tcp_servers.Server.Sockets.{IsSetUp, setup_server_tcp_socket-IsSetUp}

module _ {W : Type 0} (os : Os W) (opened : W → ℤ → Type 0) (watched : W → EpollData → Type 0)
    (waiting : W → ℕ) (limit : ℕ) (kernel : Kernel os opened watched waiting limit)
    (sockets : Sockets os opened watched waiting limit) where
  abbrev SoundServer : Server → Io W → Type 0
  SoundServer s io =
      IsSound os opened watched waiting limit (λ p. ⊥)
        (record { io = io; manager = s.data_manager })

  -- A server that is launched is sound.
  abbrev pub StartsSound : LaunchResult W → Type 0
  StartsSound (launched s io) = SoundServer s io
  StartsSound (exited e io) = Unit

  set_up-StartsSound :
      (reuse : Bool) (s : Server) (io : Io W) (next : Server → Io W → LaunchResult W)
      → SoundServer s io
      → ((sfd : ℤ) (t : Io W)
          → IsFresh os opened watched waiting limit sockets s.data_manager sfd t
          → StartsSound (next (record s { server_sfd = sfd }) t))
      → StartsSound (set_up os reuse s io next)
  set_up-StartsSound reuse s io next h k =
      answer (setup_server_tcp_socket os s.port_num s.backlog true reuse io) (
        setup_server_tcp_socket-IsSetUp os opened watched waiting limit sockets s.data_manager
          s.backlog true reuse s.port_num io h)
    where
      answer :
          (r : Setup W)
          → IsSetUp os opened watched waiting limit sockets s.data_manager r
          → StartsSound (after_setup os s next r)
      answer (listening sfd t) g = k sfd t g
      answer (raised e t) g = tt

  make_epoll-StartsSound :
      (s : Server) (io : Io W) (next : ℤ → Server → Io W → LaunchResult W)
      → IsFresh os opened watched waiting limit sockets s.data_manager s.server_sfd io
      → ((epfd : ℤ) (u : Server) (t : Io W) → SoundServer u t → StartsSound (next epfd u t))
      → StartsSound (make_epoll os s io next)
  unfolding received sent
  make_epoll-StartsSound s io next f k =
      let (r, v) = os.epoll_create io.world in created r v (sockets.create_new io.world)
    where
      io_after : Reply ℕ → W → Io W
      io_after r v = record {
        world = v;
        errno = errno_after io.errno r;
        trace = create_call r ∷ io.trace;
      }

      told :
          (n : ℕ) (t : Io W)
          → IsFresh os opened watched waiting limit sockets s.data_manager s.server_sfd t
          → StartsSound (after_create os s next (returned n, t))
      told n t g =
          ended
            (sys_epoll_ctl os (pos n) ctl_add s.server_sfd
              (some (listen_event os (insert s.server_sfd s.data_manager).0)) t)
            (register-IsSound os opened watched waiting limit (λ p. ⊥) kernel
              (record { server_sfd = s.server_sfd; epoll_fd = pos n }) _
              (record { io = t; manager = s.data_manager }) s.server_sfd g.sound g.is_open
              g.unlisted g.silent)
        where
          ended :
              (r : Reply (Unit {0}) × Io W)
              → IsSound os opened watched waiting limit
                  (λ p. ⊥)
                  (record { io = r.1; manager = (insert s.server_sfd s.data_manager).1 })
              → StartsSound (
                  after_ctl os
                    (pos n)
                    (record s { data_manager = (insert s.server_sfd s.data_manager).1 })
                    next
                    r)
          ended (returned u, w) h =
              k (pos n) (record s { data_manager = (insert s.server_sfd s.data_manager).1 }) w h
          ended (failed e, w) h = tt

      created :
          (r : Reply ℕ) (v : W)
          → NewLaw os opened watched waiting limit io.world (r, v)
          → StartsSound (after_create os s next (r, io_after r v))
      created (returned n) v law = told n (io_after (returned n) v) (
          IsFresh-Stays os opened watched waiting limit sockets s.data_manager s.server_sfd io
            (io_after (returned n) v) (λ j. record { same_received = refl; same_sent = refl }) law.1
            f)
      created (failed e) v law = tt

  launch_reusing-StartsSound :
      (n i : ℕ) (s : Server) (io : Io W)
      → SoundServer s io
      → StartsSound (launch_reusing os n i s io)
  unfolding launch_reusing
  launch_reusing-StartsSound zero i s io h =
      set_up-StartsSound true s io launched h (λ sfd t f. f.sound)
  launch_reusing-StartsSound (suc n) i s io h =
      set_up-StartsSound false s io (λ t x. make_epoll os t x next) h
        (λ sfd t f.
          make_epoll-StartsSound (record s { server_sfd = sfd }) t next f
            (λ epfd u v g. launch_reusing-StartsSound n (suc i) (spawn os epfd i u) v g))
    where
      next : ℤ → Server → Io W → LaunchResult W
      next epoll_fd u t = launch_reusing os n (suc i) (spawn os epoll_fd i u) t

  spawn_all-SoundServer :
      (n i : ℕ) (epfd : ℤ) (s : Server) (io : Io W)
      → SoundServer s io
      → SoundServer (spawn_all os n i epfd s) io
  unfolding spawn_all
  spawn_all-SoundServer zero i epfd s io h = h
  spawn_all-SoundServer (suc n) i epfd s io h =
      spawn_all-SoundServer n (suc i) epfd (spawn os epfd i s) io h

  launch_sharing-StartsSound :
      (s : Server) (io : Io W) → SoundServer s io → StartsSound (launch_sharing os s io)
  launch_sharing-StartsSound s io h =
      set_up-StartsSound false s io (λ t x. make_epoll os t x next) h
        (λ sfd t f.
          make_epoll-StartsSound (record s { server_sfd = sfd }) t next f
            (λ epfd u v g. spawn_all-SoundServer u.worker_num 0 epfd u v g))
    where
      next : ℤ → Server → Io W → LaunchResult W
      next epoll_fd u t = launched (spawn_all os u.worker_num 0 epoll_fd u) t

  -- The process has just started: no connection has a history, and epoll watches nothing.
  pub record IsBlank (io : Io W) : Type 0 where
    pub unheard : (k : ℤ) → (received k io.trace ≡ []) × (sent k io.trace ≡ [])
    pub unwatched : (d : EpollData) → watched io.world d → ⊥

  -- As many threads as wanted, each with an epoll descriptor that watches a listening socket, in a
  -- sound state; or the process has ended with a `close`.
  abbrev pub IsStarted : ℕ → LaunchResult W → Type 0
  IsStarted worker_num r = IsStaffed worker_num r × StartsSound r

  -- A new server, launched on a blank process with or without `reuse_port`: it has the wanted number of
  -- threads, the epoll descriptor of each has been told to watch a socket that has been made to listen
  -- and not been closed since, and the server is sound: its map and its heap agree, the descriptors in
  -- the map are open, and epoll holds live pointers only. If a call fails on the way the process ends,
  -- after a `close`.
  pub launch-IsStarted :
      (port_num : String) (backlog : ℤ) (worker_num : ℕ) (reuse_port : Bool) (io : Io W)
      → IsBlank io
      → IsStarted worker_num (launch os (server port_num backlog worker_num reuse_port) io)
  unfolding launch server no_connections
  launch-IsStarted port_num backlog worker_num reuse_port io b =
      let s = server port_num backlog worker_num reuse_port in
      (
        launch-IsStaffed os port_num backlog worker_num reuse_port io,
        if_rule StartsSound reuse_port (λ reuse. launch_reusing-StartsSound worker_num 0 s io blank)
            (λ share. launch_sharing-StartsSound s io blank),
      )
    where
      blank : SoundServer (server port_num backlog worker_num reuse_port) io
      blank = record {
        managed = no_connections-IsValid;
        echo = λ p c e. cc;
        listed = λ k p e. cc;
        quiet = λ k closed. b.unheard k;
        alive = λ d o. absurd (b.unwatched d o);
        kept = λ p h. h;
      }
