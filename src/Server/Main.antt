-- ===== src/Server/Main.antt =====
-- src/servers/server_main.cpp, and `start` of the server object with its threads.
use Prim.Native.String.{String}
use linux_tcp_servers.Common.{ℕ, ℤ, ◌<◌, true, List, Outcome, Bool}
use linux_tcp_servers.Os.{Os, Io, EpollData}
use linux_tcp_servers.Os.Laws.{Transfers}
use linux_tcp_servers.Os.Kernel.{Kernel}
use linux_tcp_servers.Os.Sockets.{Sockets}
use linux_tcp_servers.Arguments.{port_argument, backlog_argument, worker_argument, rounds}
use linux_tcp_servers.Connection.{buffer_size}
use linux_tcp_servers.Worker.Rounds.{Runs}
use linux_tcp_servers.Server.{Server, LaunchResult, LaunchError, launched, exited, launch, server}
use linux_tcp_servers.Server.Launch.{Closed}
use linux_tcp_servers.Server.Interleave.{Process, fresh_threads, interleave}
use linux_tcp_servers.Server.Interleave.Events.{
  IsProcess, fresh_threads-ThreadsAlive, interleave-IsProcess,
}
use linux_tcp_servers.Server.Start.{IsStarted, IsBlank, launch-IsStarted}

-- How far `start` has come: it has ended the process, or its threads have taken some turns.
pub data Progress (W : Type 0) : Type 0 where
  ended : LaunchError → Io W → Progress W
  running : Outcome (Process W) → Progress W

module _ {W : Type 0} (os : Os W) (fuel : ℕ) (turns : List ℕ) where
  abbrev pub joined : LaunchResult W → Progress W
  joined (launched s io) = running (
      interleave os fuel s turns (record {
        threads = fresh_threads s.workers_threads;
        shared = record { io = io; manager = s.data_manager };
      }))
  joined (exited e io) = ended e io

  -- `start`, for as many turns as are given. In the source a thread runs from the moment that it is
  -- made; here all of them start to run once the last has been made.
  unfoldable pub start_server : Server → Io W → Progress W
  start_server s io = joined (launch os s io)

  unfoldable pub server_main : (String → ℤ) → List String → Io W → Progress W
  server_main atoi argv io =
      start_server
        (server (port_argument argv) (backlog_argument atoi argv)
          (rounds (worker_argument atoi argv)) true)
        io

module _ {W : Type 0} (os : Os W) (opened : W → ℤ → Type 0) (watched : W → EpollData → Type 0)
    (waiting : W → ℕ) (limit : ℕ) (kernel : Kernel os opened watched waiting limit)
    (sockets : Sockets os opened watched waiting limit) (laws : Transfers os) (fuel : ℕ)
    (buffers : buffer_size < fuel) (queues : limit < fuel) where
  -- The process has ended with a `close`; or its workers run, and stand in a sound state or in one of
  -- the three exceptions.
  abbrev pub Proceeds : Progress W → Type 0
  Proceeds (ended e io) = Closed io.trace
  Proceeds (running o) =
      (s : Server) × Runs
        (IsProcess os opened watched waiting limit kernel laws fuel buffers queues s) o

  joined-Proceeds :
      (turns : List ℕ) (n : ℕ) (r : LaunchResult W)
      → IsStarted os opened watched waiting limit kernel sockets n r
      → Proceeds (joined os fuel turns r)
  joined-Proceeds turns n (launched s io) (staffed, sound) = (
    s,
    interleave-IsProcess os opened watched waiting limit kernel laws fuel buffers queues s turns
        (record {
          threads = fresh_threads s.workers_threads;
          shared = record { io = io; manager = s.data_manager };
        })
        (record {
          sound = λ w. sound;
          pending = fresh_threads-ThreadsAlive s.data_manager s.workers_threads;
        }),
  )
  joined-Proceeds turns n (exited e io) (staffed, sound) = staffed

  start_server-Proceeds :
      (turns : List ℕ) (port_num : String) (backlog : ℤ) (worker_num : ℕ) (reuse_port : Bool)
      (io : Io W)
      → IsBlank os opened watched waiting limit kernel sockets io
      → Proceeds (start_server os fuel turns (server port_num backlog worker_num reuse_port) io)
  unfolding start_server
  start_server-Proceeds turns port_num backlog worker_num reuse_port io b =
      joined-Proceeds turns worker_num
        (launch os (server port_num backlog worker_num reuse_port) io)
        (launch-IsStarted os opened watched waiting limit kernel sockets port_num backlog worker_num
          reuse_port io b)

  -- From the command line to the workers, where no thread runs before `start` has made them all and
  -- no member of the server changes after that: started in a process where no connection has a
  -- history and epoll watches nothing, it either ends before its threads run, after a `close`; or
  -- its threads run, and after any turns of theirs, event by event, the system is sound, unless
  -- `epoll_wait` has failed, a byte was stored or logged behind a full buffer, or a connection was
  -- used after it had been freed.
  pub server_main-Proceeds :
      (turns : List ℕ) (atoi : String → ℤ) (argv : List String) (io : Io W)
      → IsBlank os opened watched waiting limit kernel sockets io
      → Proceeds (server_main os fuel turns atoi argv io)
  unfolding server_main
  server_main-Proceeds turns atoi argv io b =
      start_server-Proceeds turns (port_argument argv) (backlog_argument atoi argv)
        (rounds (worker_argument atoi argv)) true io b
