-- ===== src/Tests/EpollRuns.antt =====
-- The servers around the epoll loops, on the small system.
use Prim.Native.String.{String}
use linux_tcp_servers.Common.{Returns, ℕ, zero, suc, ℤ, pos, ◌≡◌, ◌≢◌, refl, List, [], ◌∷◌, arith}
use linux_tcp_servers.Os.{Io, returned, eagain}
use linux_tcp_servers.Arguments.{worker_argument, rounds}
use linux_tcp_servers.EventLoop.{chunk_size, event_round}
use linux_tcp_servers.ReusePort.{handling_round}
use linux_tcp_servers.ReusePort.Agrees.{event_round-handling_round}
use linux_tcp_servers.ReusePort.Workers.{log_received, test_server_main, reuse_port_main}
use linux_tcp_servers.ReusePort.Processes.{
  IsForked, reuse_port_main-IsForked, test_server_main-IsForked,
}
use linux_tcp_servers.Edge.{edge_main}
use linux_tcp_servers.Edge.Fds.{accepted_fds, added_fds}
use linux_tcp_servers.Edge.Main.{IsUnwatched, AllWatched, edge_main-AllWatched}
use linux_tcp_servers.Tests.Counter.{
  take_byte, counter, plain, amount, counter-Finite, plain-Guard, counter-SetupAddsNone,
  plain-Holds, counter-EpollQuiet,
}

-- Two clients or bytes wait.
abbrev at_start : Io ℕ
at_start = record { world = 2; errno = eagain; trace = [] }

at_start-IsUnwatched :
    IsUnwatched counter plain amount counter-Finite plain-Guard plain-Holds counter-EpollQuiet
      counter-SetupAddsNone 5 at_start
unfolding accepted_fds added_fds
at_start-IsUnwatched = record { none_accepted = refl; none_added = refl; enough = omega arith }

abbrev three : String → ℤ
three text = pos 3

abbrev words : List String
words = "server" ∷ "1606" ∷ "50" ∷ "3" ∷ []

edge_main-AllWatched_example :
    Returns
      (AllWatched counter plain amount counter-Finite plain-Guard plain-Holds counter-EpollQuiet
        counter-SetupAddsNone 5)
      (edge_main counter plain three words 2 5 at_start)
edge_main-AllWatched_example =
    edge_main-AllWatched counter plain amount counter-Finite plain-Guard plain-Holds
      counter-EpollQuiet counter-SetupAddsNone 5 three words 2 at_start at_start-IsUnwatched

reuse_port_main-IsForked_example :
    Returns
      (IsForked counter plain amount counter-Finite plain-Guard plain-Holds counter-EpollQuiet
        counter-SetupAddsNone 5
        (λ w. omega arith)
        (rounds (worker_argument three words))
        [])
      (reuse_port_main counter plain three words 2 5 at_start)
reuse_port_main-IsForked_example =
    reuse_port_main-IsForked counter plain amount counter-Finite plain-Guard plain-Holds
      counter-EpollQuiet counter-SetupAddsNone 5 (λ w. omega arith) three words 2 at_start
      at_start-IsUnwatched

byte_comes : (n : ℕ) → (take_byte n).0 ≢ returned []
byte_comes zero = cc
byte_comes (suc n) = cc

abbrev data_comes : (w : ℕ) (n : ℤ) → (counter.read w n chunk_size).0 ≢ returned []
data_comes w n = byte_comes (amount w)

test_server_main-IsForked_example :
    Returns
      (IsForked counter plain amount counter-Finite plain-Guard plain-Holds counter-EpollQuiet
        counter-SetupAddsNone 5
        (λ w. omega arith)
        (rounds (worker_argument three words))
        [])
      (test_server_main counter plain three words 2 5 at_start)
test_server_main-IsForked_example =
    test_server_main-IsForked counter plain amount counter-Finite plain-Guard plain-Holds
      counter-EpollQuiet counter-SetupAddsNone 5 (λ w. omega arith) data_comes three words 2
      at_start at_start-IsUnwatched

-- The listening socket is 3, the epoll instance 4.
event_round-handling_round_example :
    event_round counter plain (pos 3) (pos 4) 5 at_start
    ≡ handling_round counter plain (pos 3) (pos 4) (log_received counter plain) 5 at_start
event_round-handling_round_example =
    event_round-handling_round counter plain data_comes (pos 3) (pos 4) 5 at_start
