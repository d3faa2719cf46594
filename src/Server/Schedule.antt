-- ===== src/Server/Schedule.antt =====
-- The threads of a server, interleaved: a schedule says which thread runs the next round. A round runs
-- as a whole; the threads share the system and the manager.
use linux_tcp_servers.Common.{ℕ, ℤ, ◌<◌, List, [], ◌∷◌, Outcome, ok, ◌>>=◌}
use linux_tcp_servers.Os.{Os, EpollData}
use linux_tcp_servers.Os.Laws.{Transfers}
use linux_tcp_servers.Os.Kernel.{Kernel}
use linux_tcp_servers.Connection.{buffer_size}
use linux_tcp_servers.Server.{Server, Thread, worker_of}
use linux_tcp_servers.Worker.{Worker, Shared, round}
use linux_tcp_servers.Worker.Rounds.{Runs, Runs-bind, Sound, round-Runs}

unfoldable pub run_schedule :
    {W : Type 0} → Os W → ℕ → Server → List Thread → Shared W → Outcome (Shared W)
run_schedule os fuel server [] s = ok s
run_schedule os fuel server (t ∷ ts) s =
    round os (worker_of server t) fuel s >>= λ u. run_schedule os fuel server ts u

module _ {W : Type 0} (os : Os W) (opened : W → ℤ → Type 0) (watched : W → EpollData → Type 0)
    (waiting : W → ℕ) (limit : ℕ) (kernel : Kernel os opened watched waiting limit)
    (laws : Transfers os) (fuel : ℕ) (buffers : buffer_size < fuel) (queues : limit < fuel)
    (server : Server) where
  abbrev pub AllSound : Shared W → Type 0
  AllSound s =
      (w : Worker) → Sound os opened watched waiting limit kernel laws w fuel buffers queues s

  -- Whatever threads take turns, round by round, in whatever order, a system that is sound at first
  -- is sound after them, unless `epoll_wait` has failed, a byte was stored or logged behind a full
  -- buffer, or a connection was used after it had been freed; and no round runs on for ever.
  pub run_schedule-AllSound :
      (schedule : List Thread) (s : Shared W)
      → AllSound s
      → Runs AllSound (run_schedule os fuel server schedule s)
  unfolding run_schedule
  run_schedule-AllSound [] s h = h
  run_schedule-AllSound (t ∷ ts) s h =
      Runs-bind
        (Sound os opened watched waiting limit kernel laws (worker_of server t) fuel buffers queues)
        AllSound (round os (worker_of server t) fuel s) _
        (round-Runs os opened watched waiting limit kernel laws (worker_of server t) fuel buffers
          queues s (h (worker_of server t)))
        (λ u k. run_schedule-AllSound ts u (λ w. k))
