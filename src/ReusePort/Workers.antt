-- ===== src/ReusePort/Workers.antt =====
-- src/servers/multi_worker_reuseport_nonblocking_io_multiplexing_server.{h,cpp} and
-- src/servers/test_server.cpp: worker processes, each with a listening socket of its own. The model
-- follows one process; where `fork` returns 0 it goes on as the child. The `wait` behind the
-- endless loop is never reached.
use Prim.Native.String.{String}
use linux_tcp_servers.Common.{ℕ, zero, suc, ℤ, true, List, Outcome, ok, ◌>>=◌}
use linux_tcp_servers.Os.{Os, Io, Reply, returned, failed, sys_fork}
use linux_tcp_servers.Arguments.{port_argument, backlog_argument, worker_argument, rounds}
use linux_tcp_servers.Descriptor.{FdClass}
use linux_tcp_servers.Listener.{setup_listener}
use linux_tcp_servers.EventLoop.{event_round}
use linux_tcp_servers.ReusePort.{handling_round}
use linux_tcp_servers.Edge.{ServerEnd, prepare, run_loop}

-- The parent's end, the child's, or an exception outside of every `try`.
pub data Forked (W Fd : Type 0) : Type 0 where
  parent_ends : Io W → Forked W Fd
  child_runs : ServerEnd W Fd → Forked W Fd
  fork_failed : String → Io W → Forked W Fd

-- `linux_concurrent_server`; the handler is the member `_read_handler`.
pub record ConcurrentServer (W : Type 0) : Type 0 where
  pub worker_process_num : ℤ
  pub port_num : String
  pub backlog : ℤ
  pub read_handler : List ℕ → Io W → Io W

module _ {W Fd : Type 0} (os : Os W) (cls : FdClass W Fd) where
  abbrev pub after_fork :
      (Io W → Outcome (Forked W Fd))
      → (Io W → Outcome (ServerEnd W Fd))
      → Reply ℕ × Io W
      → Outcome (Forked W Fd)
  after_fork next child (failed e, io) = ok (fork_failed "Failed to fork worker processes" io)
  after_fork next child (returned (suc pid), io) = next io
  after_fork next child (returned zero, io) = child io >>= λ e. ok (child_runs e)

  -- The loop that forks. After it the parent's `server_sfd`, which it has never set, goes out of its
  -- scope. An exception of a failed `fork` is caught by nothing; whether the scope is left then, the
  -- language does not say, and the model does not leave it.
  unfoldable pub fork_workers : (Io W → Outcome (ServerEnd W Fd)) → ℕ → Io W → Outcome (Forked W Fd)
  fork_workers child zero io = ok (parent_ends (cls.destroy cls.empty io))
  fork_workers child (suc n) io = after_fork (fork_workers child n) child (sys_fork os io)

  -- `start`, where a child does so many rounds of its loop.
  unfoldable pub start_processes : ConcurrentServer W → ℕ → ℕ → Io W → Outcome (Forked W Fd)
  start_processes self n fuel io =
      fork_workers
        (λ t.
          run_loop os cls
            (λ server_sfd epoll_fd u.
              handling_round os cls server_sfd epoll_fd self.read_handler fuel u)
            n (prepare os cls (setup_listener os cls self.port_num self.backlog true true t)))
        (rounds self.worker_process_num) io

  abbrev pub construct : ℤ → String → ℤ → (List ℕ → Io W → Io W) → ConcurrentServer W
  construct worker_process_num port_num backlog read_handler = record {
    worker_process_num = worker_process_num;
    port_num = port_num;
    backlog = backlog;
    read_handler = read_handler;
  }

  -- `operator()` only logs.
  abbrev pub log_received : List ℕ → Io W → Io W
  log_received bytes io = io

  -- `main` of the test server.
  unfoldable pub test_server_main :
      (String → ℤ) → List String → ℕ → ℕ → Io W → Outcome (Forked W Fd)
  test_server_main atoi argv n fuel io =
      start_processes
        (construct (worker_argument atoi argv) (port_argument argv) (backlog_argument atoi argv)
          log_received)
        n fuel io

  -- `main` of the server that uses the loop of the utilities.
  unfoldable pub reuse_port_main : (String → ℤ) → List String → ℕ → ℕ → Io W → Outcome (Forked W Fd)
  reuse_port_main atoi argv n fuel io =
      fork_workers
        (λ t.
          run_loop os cls (λ server_sfd epoll_fd u. event_round os cls server_sfd epoll_fd fuel u) n
            (prepare os cls (
              setup_listener os cls (port_argument argv) (backlog_argument atoi argv) true true t)))
        (rounds (worker_argument atoi argv)) io
