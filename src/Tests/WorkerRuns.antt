-- ===== src/Tests/WorkerRuns.antt =====
-- A worker with one listening socket on the small kernel.
use linux_tcp_servers.Common.{
  false, ℕ, pos, ◌≡◌, refl, [], ◌∷◌, Option, none, some, arith, Outcome, ok, Ends, repeat,
  undefined, dangling,
}
use linux_tcp_servers.Os.{EpollEvent, ptr, eagain, ctl_add, sys_epoll_ctl}
use linux_tcp_servers.Connection.{connection}
use linux_tcp_servers.Connection.History.{received, sent}
use linux_tcp_servers.Manager.{no_connections, insert}
use linux_tcp_servers.Manager.Invariant.{no_connections-IsValid}
use linux_tcp_servers.Worker.{Worker, Shared, start, accept_connections, dispatch, close_connection}
use linux_tcp_servers.Worker.Invariant.{IsSound}
use linux_tcp_servers.Worker.Accept.{HasAccepted, register-IsSound, accept_connections-IsSound}
use linux_tcp_servers.Worker.Rounds.{Runs, start-IsSound}
use linux_tcp_servers.Worker.Dispatch.{Faults, dispatch-IsSound, close_connection_dangles}
use linux_tcp_servers.Server.{Server, Thread, server}
use linux_tcp_servers.Server.Interleave.{Process, interleave}
use linux_tcp_servers.Server.Interleave.Events.{IsProcess, interleave-IsProcess}
use linux_tcp_servers.Common.{ok}
use linux_tcp_servers.Server.Schedule.{AllSound, run_schedule, run_schedule-AllSound}
use linux_tcp_servers.Tests.Net.{
  Net, net, Opened, Watched, waiting, queue_limit, net-Transfers, net-Kernel,
}

abbrev listener : Worker
listener = record { server_sfd = pos 3; epoll_fd = pos 4 }

-- Descriptors 0 to 4 are open; two clients wait.
abbrev blank : Shared Net
blank = record {
  io = record {
    world = record { clients = 2; next = 5; inbox = 7 ∷ 8 ∷ []; watching = [] };
    errno = eagain;
    trace = [];
  };
  manager = no_connections;
}

abbrev next_pointer : Outcome (Shared Net) → Option ℕ
next_pointer (ok s) = some s.manager.next
next_pointer o = none

blank-IsSound : IsSound net Opened Watched waiting queue_limit (λ p. ⊥) blank
unfolding no_connections received sent
blank-IsSound = record {
  managed = no_connections-IsValid;
  echo = λ p c e. cc;
  listed = λ k p e. cc;
  quiet = λ k closed. (refl, refl);
  alive = λ d o. absurd o;
  kept = λ p b. b;
}

-- The listening socket 3 is registered, under pointer 0.
abbrev listening : Shared Net
listening = record {
  io =
      (sys_epoll_ctl net (pos 4) ctl_add (pos 3)
        (some (record { events = 1; data_of = ptr (insert (pos 3) no_connections).0 })) blank.io).1;
  manager = (insert (pos 3) no_connections).1;
}

listening-IsSound : IsSound net Opened Watched waiting queue_limit (λ p. ⊥) listening
unfolding no_connections received sent
listening-IsSound =
    register-IsSound net Opened Watched waiting queue_limit (λ p. ⊥) net-Kernel listener 1 blank
      (pos 3) blank-IsSound (omega arith) refl (refl, refl)

abbrev readable : EpollEvent
readable = record { events = 1; data_of = ptr (some 0) }

-- Three rounds accept both clients.
start-IsSound_example :
    Runs
      (IsSound net Opened Watched waiting queue_limit (λ p. ⊥))
      (start net listener 3 2000 listening)
start-IsSound_example =
    start-IsSound net Opened Watched waiting queue_limit net-Kernel net-Transfers listener 2000
      (omega arith) (omega arith) 3 listening listening-IsSound

accept_connections-IsSound_example :
    Ends
      (λ e. ⊥)
      (HasAccepted net Opened Watched waiting queue_limit (λ p. ⊥) net-Kernel listener)
      (accept_connections net listener 2000 listening)
accept_connections-IsSound_example =
    accept_connections-IsSound net Opened Watched waiting queue_limit (λ p. ⊥) net-Kernel listener
      2000 listening (omega arith) listening-IsSound

dispatch-IsSound_example :
    Ends
      (Faults 1)
      (IsSound net Opened Watched waiting queue_limit (λ p. ⊥))
      (dispatch net listener 2000 readable listening)
unfolding insert no_connections
dispatch-IsSound_example =
    dispatch-IsSound net Opened Watched waiting queue_limit (λ p. ⊥) net-Kernel net-Transfers
      listener 2000 (omega arith) (omega arith) readable listening listening-IsSound tt

-- Closing the connection behind pointer 0.
close_connection_dangles_example :
    close_connection net listener 0 (connection (pos 3)) listening ≡ undefined dangling
unfolding insert no_connections connection
close_connection_dangles_example =
    close_connection_dangles net listener 0 (connection (pos 3)) listening listening-IsSound.managed
      refl refl

-- What the accepting leaves: two connections, descriptors 5 and 6.
accepted_two : next_pointer (accept_connections net listener 5 listening) ≡ some 3
unfolding accept_connections insert no_connections repeat
accepted_two = refl

abbrev two_threads : Server
two_threads = record (server "1606" (pos 50) 2 false) { server_sfd = pos 3 }

abbrev thread : ℕ → Thread
thread i = record { epoll_fd = pos 4; worker_id = i }

run_schedule-AllSound_example :
    Runs
      (AllSound net Opened Watched waiting queue_limit net-Kernel net-Transfers 2000
        (omega arith)
        (omega arith)
        two_threads)
      (run_schedule net 2000 two_threads (thread 1 ∷ thread 0 ∷ thread 1 ∷ []) listening)
run_schedule-AllSound_example =
    run_schedule-AllSound net Opened Watched waiting queue_limit net-Kernel net-Transfers 2000
      (omega arith) (omega arith) two_threads (thread 1 ∷ thread 0 ∷ thread 1 ∷ []) listening
      (λ w. listening-IsSound)

-- The first thread has not yet handled an event of the listening socket.
abbrev in_between : Process Net
in_between = record {
  threads =
      record { thread = thread 0; events = readable ∷ [] }
      ∷ record { thread = thread 1; events = [] }
      ∷ [];
  shared = listening;
}

in_between-IsProcess :
    IsProcess net Opened Watched waiting queue_limit net-Kernel net-Transfers 2000
      (omega arith)
      (omega arith)
      two_threads
      in_between
unfolding insert no_connections
in_between-IsProcess = record { sound = λ w. listening-IsSound; pending = ((tt, tt), (tt, tt)) }

interleave-IsProcess_example :
    Runs
      (IsProcess net Opened Watched waiting queue_limit net-Kernel net-Transfers 2000
        (omega arith)
        (omega arith)
        two_threads)
      (interleave net 2000 two_threads (1 ∷ 0 ∷ 1 ∷ 0 ∷ []) in_between)
interleave-IsProcess_example =
    interleave-IsProcess net Opened Watched waiting queue_limit net-Kernel net-Transfers 2000
      (omega arith) (omega arith) two_threads (1 ∷ 0 ∷ 1 ∷ 0 ∷ []) in_between in_between-IsProcess
