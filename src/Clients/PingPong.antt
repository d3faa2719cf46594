-- ===== src/Clients/PingPong.antt =====
-- src/clients/multi_client.cpp: eleven threads that each make four connections. `exit` in one
-- thread ends the process. The threads take turns, call by call.
pub mod Histories
pub mod Works
pub mod Elems
pub mod Together
pub mod Turns
pub mod Finishes
pub mod Sockets
pub mod Owners
use Prim.Native.String.{String}
use linux_tcp_servers.Common.{
  ℕ, zero, suc, ℤ, pos, ◌+◌, leb, ◌&&◌, if◌then◌else◌, Bool, true, false, List, [], ◌∷◌, ◌++◌,
  Option, none, some,
}
use linux_tcp_servers.Os.{
  Os, Io, Reply, returned, failed, sys_write, sys_socket, sys_gethostbyname, sys_connect, sys_close,
}
use linux_tcp_servers.Arguments.{get_elem?}
use linux_tcp_servers.Blocking.{Exit, running, success, failure}
use linux_tcp_servers.Clients.{bytes_of, af_inet, sock_stream, port_number, host_argument, to_port}

abbrev pub num_threads : ℕ
num_threads = 10

-- `"ping pong " + std::to_string(i)`, where `i` has one digit.
abbrev pub ping_pong : ℕ → List ℕ
ping_pong i = bytes_of "ping pong " ++ ((48 + i) ∷ [])

pub data ExitCode : Type 0 where
  exit_success exit_failure : ExitCode

-- What a thread of `send_ping_pong_message` calls next, with its variables: `i`, the host, `sockfd`
-- and `j`. A thread at `exiting` is about to call `exit`.
pub data PingThread : Type 0 where
  opening : ℕ → PingThread
  connecting : ℕ → ℕ → ℕ → PingThread
  writing : ℕ → ℕ → ℕ → PingThread
  closing : ℕ → ℕ → PingThread
  exiting : ExitCode → PingThread
  left : PingThread

-- The test of the outer loop.
abbrev pub at_connection : ℕ → PingThread
at_connection i = if leb i 4 then opening i else left

-- The test of the inner loop.
abbrev pub at_ping : ℕ → ℕ → ℕ → PingThread
at_ping i sockfd j = if leb j 10 then writing i sockfd j else closing i sockfd

abbrev pub opened : Option ℕ → ℕ → Reply ℕ → PingThread
opened server i (failed e) = exiting exit_failure
opened none i (returned n) = exiting exit_success
opened (some host) i (returned n) = connecting i host n

abbrev pub connected : ℕ → ℕ → Reply (Unit {0}) → PingThread
connected i sockfd (failed e) = exiting exit_failure
connected i sockfd (returned u) = at_ping i sockfd 1

abbrev pub written : ℕ → ℕ → ℕ → Reply ℕ → PingThread
written i sockfd j (failed e) = exiting exit_failure
written i sockfd j (returned n) = at_ping i sockfd (suc j)

module _ {W : Type 0} (os : Os W) (port : ℕ) (server : Option ℕ) where
  -- `send_ping_pong_message`, for one call.
  unfoldable pub next_call : PingThread → Io W → PingThread × Io W
  next_call (opening i) io =
      let (r, t) = sys_socket os af_inet sock_stream 0 io in (opened server i r, t)
  next_call (connecting i host sockfd) io =
      let (r, t) = sys_connect os (pos sockfd) host port io in (connected i sockfd r, t)
  next_call (writing i sockfd j) io =
      let (r, t) = sys_write os (pos sockfd) (ping_pong i) io in (written i sockfd j r, t)
  next_call (closing i sockfd) io = (at_connection (suc i), sys_close os (pos sockfd) io)
  next_call (exiting code) io = (exiting code, io)
  next_call left io = (left, io)

-- The process with its threads, or after an `exit`.
pub data Threads (W : Type 0) : Type 0 where
  at_work : List PingThread → Io W → Threads W
  exited : Exit W → Threads W

abbrev pub set_elem {ℓ} : {A : Type ℓ} → List A → ℕ → A → List A
set_elem [] k i = []
set_elem (x ∷ xs) zero i = i ∷ xs
set_elem (x ∷ xs) (suc k) i = x ∷ set_elem xs k i

-- `for (int i{0}; i<=num_threads; ++i)`.
unfoldable pub started_threads : ℕ → List PingThread
started_threads zero = at_connection 1 ∷ []
started_threads (suc n) = at_connection 1 ∷ started_threads n

abbrev pub has_left : PingThread → Bool
has_left (opening i) = false
has_left (connecting i host sockfd) = false
has_left (writing i sockfd j) = false
has_left (closing i sockfd) = false
has_left (exiting code) = false
has_left left = true

-- Every thread has left its loop, and can be joined.
unfoldable pub all_left : List PingThread → Bool
all_left [] = true
all_left (thread ∷ threads) = has_left thread && all_left threads

module _ {W : Type 0} (os : Os W) (port : ℕ) (server : Option ℕ) where
  abbrev pub turn_done : List PingThread → ℕ → PingThread × Io W → Threads W
  turn_done threads k (thread, io) = at_work (set_elem threads k thread) io

  -- The thread `k` makes its next call, if it has one to make.
  abbrev pub turn_of : List PingThread → ℕ → Io W → Option PingThread → Threads W
  turn_of threads k io none = at_work threads io
  turn_of threads k io (some (exiting exit_success)) = exited (success io)
  turn_of threads k io (some (exiting exit_failure)) = exited (failure io)
  turn_of threads k io (some thread) = turn_done threads k (next_call os port server thread io)

  unfoldable pub take_turns : List ℕ → Threads W → Threads W
  take_turns [] s = s
  take_turns (k ∷ schedule) (exited e) = exited e
  take_turns (k ∷ schedule) (at_work threads io) =
      take_turns schedule (turn_of threads k io (get_elem? threads k))

module _ {W : Type 0} (os : Os W) where
  abbrev pub join_all : Threads W → Exit W
  join_all (exited e) = e
  join_all (at_work threads io) = if all_left threads then success io else running io

  abbrev pub run_threads : ℕ → List ℕ → Option ℕ × Io W → Exit W
  run_threads port schedule (server, io) =
      join_all (take_turns os port server schedule (at_work (started_threads num_threads) io))

  -- `main`, where the threads take turns in the order of the schedule; `running` if some are left.
  unfoldable pub multi_client_main : (String → ℤ) → List String → List ℕ → Io W → Exit W
  multi_client_main atoi argv schedule io =
      run_threads (to_port (port_number atoi argv)) schedule
        (sys_gethostbyname os (host_argument argv) io)
