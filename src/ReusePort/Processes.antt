-- ===== src/ReusePort/Processes.antt =====
-- The parent that forks the workers, and what each worker's epoll instance watches.
use Prim.Native.String.{String}
use linux_tcp_servers.Common.{
  Returns, ℕ, zero, suc, ℤ, ◌+◌, ◌≤◌, ◌<◌, refl, ◌≡◌, ◌≢◌, subst, true, List, [], ◌∷◌, arith,
  Outcome, ok, thrown, undefined, out_of_fuel, ◌>>=◌,
}
use linux_tcp_servers.Os.{Os, Io, Call, Errno, Reply, returned, failed, errno_after, fork_call}
use linux_tcp_servers.Arguments.{port_argument, backlog_argument, worker_argument, rounds}
use linux_tcp_servers.Descriptor.{FdClass}
use linux_tcp_servers.Descriptor.Finite.{Finite}
use linux_tcp_servers.Descriptor.Closes.{Guard, OnlyCloses}
use linux_tcp_servers.EventLoop.{chunk_size, event_round}
use linux_tcp_servers.ReusePort.{handling_round}
use linux_tcp_servers.ReusePort.Workers.{
  Forked, parent_ends, child_runs, fork_failed, after_fork, fork_workers, start_processes,
  log_received, test_server_main, reuse_port_main,
}
use linux_tcp_servers.Blocking.Main.{SetupAddsNone}
use linux_tcp_servers.Edge.{ServerEnd}
use linux_tcp_servers.Edge.Fds.{accepted_fds, added_fds, Holds, EpollQuiet}
use linux_tcp_servers.Edge.Reads.{event_round-Good, handling_round-Good}
use linux_tcp_servers.Edge.Main.{IsUnwatched, AllWatched, run_loop-AllWatched}

-- The first calls of a process: so many children forked, and nothing else.
pub data OnlyForks (before : List Call) : ℕ → List Call → Type 0 where
  no_fork : OnlyForks before 0 before
  one_fork :
      (pid : ℕ) {n : ℕ} {t : List Call}
      → OnlyForks before n t
      → OnlyForks before (suc n) (fork_call (returned (suc pid)) ∷ t)

module _ {W Fd : Type 0} (os : Os W) (cls : FdClass W Fd) (amount : W → ℕ)
    (finite : Finite os cls amount) (guard : Guard cls) (holds : Holds cls)
    (quiet : EpollQuiet os amount) (adds : SetupAddsNone os amount) (fuel : ℕ)
    (forks : (w : W) → amount (os.fork w).1 ≤ amount w) where
  abbrev Fresh : Io W → Type 0
  Fresh = IsUnwatched os cls amount finite guard holds quiet adds fuel

  abbrev ChildGood : ServerEnd W Fd → Type 0
  ChildGood = AllWatched os cls amount finite guard holds quiet adds fuel

  -- The parent has forked `workers` children, and then at most closed something, without a call of
  -- `wait`; a child watches all that it has accepted, or has failed; or a fork has failed, after fewer
  -- children and no other call.
  abbrev pub IsForked : ℕ → List Call → Forked W Fd → Type 0
  IsForked workers before (parent_ends io) =
      (t : List Call) × (OnlyForks before workers t × OnlyCloses t io.trace)
  IsForked workers before (child_runs e) = ChildGood e
  IsForked workers before (fork_failed e io) =
      (done : ℕ) × ((done < workers)
        × ((x : Errno) × ((t : List Call) × (OnlyForks before done t
                × (io.trace ≡ fork_call (failed x) ∷ t)))))

  module _ (child : Io W → Outcome (ServerEnd W Fd))
      (keep : (io : Io W) → Fresh io → Returns ChildGood (child io)) (workers : ℕ)
      (before : List Call) where
    child-IsForked :
        (r : Outcome (ServerEnd W Fd))
        → Returns ChildGood r
        → Returns (IsForked workers before) (r >>= λ e. ok (child_runs e))
    child-IsForked (ok e) h = h
    child-IsForked (thrown e) h = h
    child-IsForked (undefined e) h = h
    child-IsForked out_of_fuel h = h

    fork_workers-IsForked :
        (done n : ℕ) (io : Io W)
        → done + n ≡ workers
        → OnlyForks before done io.trace
        → Fresh io
        → Returns (IsForked workers before) (fork_workers os cls child n io)
    unfolding fork_workers accepted_fds added_fds
    fork_workers-IsForked done zero io e only h = (
      io.trace,
      (
        subst (λ k. OnlyForks before k io.trace) (omega arith) only,
        guard.destroy_closes cls.empty io,
      ),
    )
    fork_workers-IsForked done (suc n) io e only h =
        let (r, w) = os.fork io.world in
        answer (λ t k g. fork_workers-IsForked (suc done) n t (omega arith) k g) r w
          (forks io.world)
      where
        forked : Reply ℕ → W → Io W
        forked r w = record {
          world = w;
          errno = errno_after io.errno r;
          trace = fork_call r ∷ io.trace;
        }

        answer :
            ((t : Io W)
              → OnlyForks before (suc done) t.trace
              → Fresh t
              → Returns (IsForked workers before) (fork_workers os cls child n t))
            → (r : Reply ℕ) (w : W) → amount w ≤ amount io.world
            → Returns
                (IsForked workers before)
                (after_fork os cls (λ t. fork_workers os cls child n t) child (r, forked r w))
        answer next (failed x) w low = (done, (omega arith, (x, (io.trace, (only, refl)))))
        answer next (returned (suc pid)) w low =
            next (forked (returned (suc pid)) w) (one_fork pid only) (record {
              none_accepted = h.none_accepted;
              none_added = h.none_added;
              enough = omega (arith, h.enough);
            })
        answer next (returned zero) w low = child-IsForked (child (forked (returned zero) w)) (
            keep (forked (returned zero) w) (record {
              none_accepted = h.none_accepted;
              none_added = h.none_added;
              enough = omega (arith, h.enough);
            }))

  -- The server with the utilities' loop: the parent forks as many workers as it is told and ends,
  -- with no other call but `close` after the last fork, so without waiting for any of them. A
  -- worker, after any number of rounds, still runs, and epoll watches its listening socket and
  -- every client that it has accepted; or it has failed in its setup, before it has accepted
  -- anyone; or it has failed in its loop, and epoll watches what it has accepted but for at most
  -- the last client. If `fork` fails the process ends with an exception, and has forked fewer
  -- children and made no other call.
  pub reuse_port_main-IsForked :
      (atoi : String → ℤ) (argv : List String) (n : ℕ) (io : Io W)
      → Fresh io
      → Returns
          (IsForked (rounds (worker_argument atoi argv)) io.trace)
          (reuse_port_main os cls atoi argv n fuel io)
  unfolding reuse_port_main
  reuse_port_main-IsForked atoi argv n io h =
      fork_workers-IsForked _
        (λ t k.
          run_loop-AllWatched os cls amount finite guard holds quiet adds fuel
            (λ server_sfd epoll_fd u. event_round os cls server_sfd epoll_fd fuel u)
            (λ server_sfd epoll_fd u g.
              event_round-Good os cls amount finite guard holds quiet fuel (cls.get_fd server_sfd)
                server_sfd epoll_fd u g)
            n (backlog_argument atoi argv) true (port_argument argv) t k)
        (rounds (worker_argument atoi argv)) io.trace 0 (rounds (worker_argument atoi argv)) io
        (omega arith) no_fork h

  -- The test server, with the copied loop: the same, as long as no `read` finds the end of a stream.
  pub test_server_main-IsForked :
      ((w : W) (n : ℤ) → (os.read w n chunk_size).0 ≢ returned [])
      → (atoi : String → ℤ) (argv : List String) (n : ℕ) (io : Io W) → Fresh io
      → Returns
          (IsForked (rounds (worker_argument atoi argv)) io.trace)
          (test_server_main os cls atoi argv n fuel io)
  unfolding test_server_main start_processes
  test_server_main-IsForked brings atoi argv n io h =
      fork_workers-IsForked _
        (λ t k.
          run_loop-AllWatched os cls amount finite guard holds quiet adds fuel
            (λ server_sfd epoll_fd u.
              handling_round os cls server_sfd epoll_fd (log_received os cls) fuel u)
            (λ server_sfd epoll_fd u g.
              handling_round-Good os cls amount finite guard holds quiet fuel
                (cls.get_fd server_sfd) server_sfd epoll_fd (log_received os cls)
                (λ bytes v q. (q, omega arith)) brings u g)
            n (backlog_argument atoi argv) true (port_argument argv) t k)
        (rounds (worker_argument atoi argv)) io.trace 0 (rounds (worker_argument atoi argv)) io
        (omega arith) no_fork h
