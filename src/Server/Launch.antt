-- ===== src/Server/Launch.antt =====
-- What a launched server is: its threads, and what their epoll descriptors watch.
use Prim.Native.String.{String}
use linux_tcp_servers.Common.{
  ℕ, zero, suc, ℤ, pos, ◌+◌, ◌≡◌, ◌≢◌, refl, sym, subst, ◌⊎◌, inl, inr, Bool, true, false, bit_or,
  List, [], ◌∷◌, ◌++◌, some, arith, length, if_rule, ap,
}
use linux_tcp_servers.Os.{
  Os, Io, Call, ctl_call, ctl_add, listen_call, close_call, Reply, returned, failed,
  sys_epoll_create, errno_after,
}
use linux_tcp_servers.Os.Flags.{epollin, epollexclusive}
use linux_tcp_servers.Manager.{insert}
use linux_tcp_servers.Setup.{Setup, listening, raised, setup_server_tcp_socket}
use linux_tcp_servers.Setup.Options.{io_of}
use linux_tcp_servers.Setup.Listens.{Listens, setup_server_tcp_socket-Listens}
use linux_tcp_servers.Setup.Extends.{setup_server_tcp_socket-keeps}
use linux_tcp_servers.Server.{
  Thread, Server, LaunchResult, launched, exited, after_setup, set_up, listen_event, after_ctl,
  after_create, make_epoll, spawn, launch_reusing, spawn_all, launch_sharing, launch, server,
}

-- The descriptor has been made to listen, and has not been closed since.
abbrev pub Listening : ℤ → List Call → Type 0
Listening sfd [] = ⊥
Listening sfd (listen_call n backlog (returned u) ∷ trace) = (n ≡ sfd) ⊎ Listening sfd trace
Listening sfd (close_call n ∷ trace) = (n ≢ sfd) × Listening sfd trace
Listening sfd (c ∷ trace) = Listening sfd trace

-- A successful registration of a descriptor that listens, level-triggered and exclusive; the trace is
-- that of the calls before.
abbrev pub Registers : ℤ → Call → List Call → Type 0
Registers epfd (ctl_call e ctl_add sfd (some event) (returned u)) trace =
    (e ≡ epfd) × ((event.events ≡ bit_or epollin epollexclusive) × Listening sfd trace)
Registers epfd c trace = ⊥

abbrev pub Armed : ℤ → List Call → Type 0
Armed epfd [] = ⊥
Armed epfd (c ∷ trace) = Registers epfd c trace ⊎ Armed epfd trace

abbrev pub AllArmed : List Thread → List Call → Type 0
AllArmed [] trace = Unit
AllArmed (t ∷ ts) trace = Armed t.epoll_fd trace × AllArmed ts trace

-- The newest call is a `close`.
abbrev pub Closed : List Call → Type 0
Closed (close_call sfd ∷ trace) = Unit
Closed trace = ⊥

-- As many threads as are wanted, each with an epoll descriptor that watches a listening socket; or the
-- process ends, having closed a descriptor last.
abbrev pub IsStaffed : {W : Type 0} → ℕ → LaunchResult W → Type 0
IsStaffed total (launched s io) =
    (length s.workers_threads ≡ total) × AllArmed s.workers_threads io.trace
IsStaffed total (exited e io) = Closed io.trace

AllArmed-keep :
    (ts : List Thread) (c : Call) (trace : List Call) → AllArmed ts trace → AllArmed ts (c ∷ trace)
AllArmed-keep [] c trace h = tt
AllArmed-keep (t ∷ ts) c trace h = (inr h.0, AllArmed-keep ts c trace h.1)

AllArmed-add :
    (ts : List Thread) (t : Thread) (trace : List Call)
    → AllArmed ts trace
    → Armed t.epoll_fd trace
    → AllArmed (ts ++ (t ∷ [])) trace
AllArmed-add [] t trace h a = (a, tt)
AllArmed-add (u ∷ ts) t trace h a = (h.0, AllArmed-add ts t trace h.1 a)

length-add : (ts : List Thread) (t : Thread) → length (ts ++ (t ∷ [])) ≡ suc (length ts)
length-add [] t = refl
length-add (u ∷ ts) t = omega (arith, length-add ts t)

module _ {W : Type 0} (os : Os W) (total : ℕ) where
  abbrev Goal : LaunchResult W → Type 0
  Goal = IsStaffed total

  set_up-Goal :
      (reuse : Bool) (s : Server) (io : Io W) (next : Server → Io W → LaunchResult W)
      → AllArmed s.workers_threads io.trace
      → ((sfd : ℤ) (t : Io W)
          → AllArmed s.workers_threads t.trace
          → Listening sfd t.trace
          → Goal (next (record s { server_sfd = sfd }) t))
      → Goal (set_up os reuse s io next)
  set_up-Goal reuse s io next h k =
      answer (setup_server_tcp_socket os s.port_num s.backlog true reuse io)
        (setup_server_tcp_socket-keeps os (AllArmed s.workers_threads)
          (AllArmed-keep s.workers_threads) s.backlog true reuse s.port_num io h)
        (setup_server_tcp_socket-Listens os s.backlog true reuse s.port_num io)
    where
      answer :
          (r : Setup W)
          → AllArmed s.workers_threads (io_of r).trace
          → Listens s.backlog r
          → Goal (after_setup os s next r)
      answer (listening sfd t) g (addr, earlier, e) =
          k sfd t g (subst (Listening sfd) (sym e) (inl refl))
      answer (raised e t) g l = tt

  abbrev EpollNext : Server → (ℤ → Server → Io W → LaunchResult W) → Type 0
  EpollNext s next =
      (epfd : ℤ) (u : Server) (t : Io W)
      → u.workers_threads ≡ s.workers_threads
      → u.worker_num ≡ s.worker_num
      → AllArmed u.workers_threads t.trace
      → Armed epfd t.trace
      → Goal (next epfd u t)

  after_ctl-Goal :
      (n : ℕ) (s : Server) (io : Io W) (next : ℤ → Server → Io W → LaunchResult W)
      → AllArmed s.workers_threads io.trace
      → Listening s.server_sfd io.trace
      → EpollNext s next
      → Goal (after_create os s next (returned n, io))
  after_ctl-Goal n s io next h l k =
      let (p, m) = insert s.server_sfd s.data_manager in
      let (r, w) = os.epoll_ctl io.world (pos n) ctl_add s.server_sfd (some (listen_event os p)) in
      answer r w
    where
      answer :
          (r : Reply (Unit {0})) (w : W)
          → Goal (
              after_ctl os
                (pos n)
                (record s { data_manager = (insert s.server_sfd s.data_manager).1 })
                next
                (
                  r,
                  record {
                    world = w;
                    errno = errno_after io.errno r;
                    trace =
                        ctl_call
                          (pos n)
                          ctl_add
                          s.server_sfd
                          (some (listen_event os (insert s.server_sfd s.data_manager).0))
                          r
                        ∷ io.trace;
                  },
                ))
      answer (returned u) w =
          k (pos n) _ _ refl refl (AllArmed-keep s.workers_threads _ io.trace h)
            (inl (refl, (refl, l)))
      answer (failed e) w = tt

  make_epoll-Goal :
      (s : Server) (io : Io W) (next : ℤ → Server → Io W → LaunchResult W)
      → AllArmed s.workers_threads io.trace
      → Listening s.server_sfd io.trace
      → EpollNext s next
      → Goal (make_epoll os s io next)
  make_epoll-Goal s io next h l k =
      answer (sys_epoll_create os io) (AllArmed-keep s.workers_threads _ io.trace h) l
    where
      answer :
          (r : Reply ℕ × Io W)
          → AllArmed s.workers_threads r.1.trace
          → Listening s.server_sfd r.1.trace
          → Goal (after_create os s next r)
      answer (returned n, t) g x = after_ctl-Goal n s t next g x k
      answer (failed e, t) g x = tt

  launch_reusing-Goal :
      (n i : ℕ) (s : Server) (io : Io W)
      → length s.workers_threads + n ≡ total
      → AllArmed s.workers_threads io.trace
      → Goal (launch_reusing os n i s io)
  unfolding launch_reusing
  launch_reusing-Goal zero i s io e h =
      set_up-Goal true s io launched h (λ sfd t g l. (omega (arith, e), g))
  launch_reusing-Goal (suc n) i s io e h =
      set_up-Goal false s io (λ t x. make_epoll os t x next) h
        (λ sfd t g l.
          make_epoll-Goal (record s { server_sfd = sfd }) t next g l
            (λ epfd u v same num all armed.
              launch_reusing-Goal n (suc i) (spawn os epfd i u) v
                (omega (
                  arith,
                  e,
                  ap length same,
                  length-add u.workers_threads (record { epoll_fd = epfd; worker_id = i }),
                ))
                (AllArmed-add u.workers_threads (record { epoll_fd = epfd; worker_id = i }) v.trace
                  all armed)))
    where
      next : ℤ → Server → Io W → LaunchResult W
      next epoll_fd u t = launch_reusing os n (suc i) (spawn os epoll_fd i u) t

  spawn_all-Goal :
      (n i : ℕ) (epfd : ℤ) (s : Server) (io : Io W)
      → length s.workers_threads + n ≡ total
      → AllArmed s.workers_threads io.trace
      → Armed epfd io.trace
      → Goal (launched (spawn_all os n i epfd s) io)
  unfolding spawn_all
  spawn_all-Goal zero i epfd s io e h armed = (omega (arith, e), h)
  spawn_all-Goal (suc n) i epfd s io e h armed =
      spawn_all-Goal n (suc i) epfd (spawn os epfd i s) io
        (omega (arith, e, length-add s.workers_threads (record { epoll_fd = epfd; worker_id = i })))
        (AllArmed-add s.workers_threads _ io.trace h armed) armed

  launch_sharing-Goal :
      (s : Server) (io : Io W)
      → length s.workers_threads + s.worker_num ≡ total
      → AllArmed s.workers_threads io.trace
      → Goal (launch_sharing os s io)
  launch_sharing-Goal s io e h =
      set_up-Goal false s io (λ t x. make_epoll os t x next) h
        (λ sfd t g l.
          make_epoll-Goal (record s { server_sfd = sfd }) t next g l
            (λ epfd u v same num all armed.
              spawn_all-Goal u.worker_num 0 epfd u v (omega (arith, e, num, ap length same)) all
                armed))
    where
      next : ℤ → Server → Io W → LaunchResult W
      next epoll_fd u t = launched (spawn_all os u.worker_num 0 epoll_fd u) t

pub launch-IsStaffed :
    {W : Type 0} (os : Os W) (port_num : String) (backlog : ℤ) (worker_num : ℕ) (reuse_port : Bool)
    (io : Io W)
    → IsStaffed worker_num (launch os (server port_num backlog worker_num reuse_port) io)
unfolding launch server
launch-IsStaffed os port_num backlog worker_num reuse_port io =
    if_rule (IsStaffed worker_num) reuse_port
      (λ reuse.
        launch_reusing-Goal os worker_num worker_num 0
          (server port_num backlog worker_num reuse_port) io (omega arith) tt)
      (λ share.
        launch_sharing-Goal os worker_num (server port_num backlog worker_num reuse_port) io
          (omega arith) tt)
