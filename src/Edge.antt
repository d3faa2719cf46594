-- ===== src/Edge.antt =====
-- src/servers/nonblocking_io_multiplexing_edge_trigger_epoll_server.cpp: from the command line to the
-- loop of the utilities, and the handler of the exceptions of both.
pub mod Fds
pub mod Watch
pub mod Takes
pub mod Rounds
pub mod Reads
pub mod Main
use Prim.Native.String.{String}
use linux_tcp_servers.Common.{
  ℕ, zero, suc, ℤ, if◌then◌else◌, Bool, true, false, bit_or, List, some, Outcome, Result, ok,
  thrown, undefined, out_of_fuel, ◌>>=◌,
}
use linux_tcp_servers.Os.{
  Os, Io, Reply, returned, failed, EpollEvent, fd, ctl_add, sys_epoll_create, sys_epoll_ctl,
}
use linux_tcp_servers.Os.Flags.{epollin, epollet}
use linux_tcp_servers.Arguments.{port_argument, backlog_argument}
use linux_tcp_servers.Setup.{as_int}
use linux_tcp_servers.Descriptor.{FdClass}
use linux_tcp_servers.Listener.{ListenerResult, ready, refused, setup_listener}
use linux_tcp_servers.EventLoop.{event_round}

-- Before the loop: its two descriptors, or an exception, with the object that the handler closes.
pub data Prepared (W Fd : Type 0) : Type 0 where
  prepared : Fd → Fd → Io W → Prepared W Fd
  interrupted : Fd → Io W → Prepared W Fd

-- The process still runs; it has failed in its setup; or it has failed in its loop.
pub data ServerEnd (W Fd : Type 0) : Type 0 where
  still_running : Fd → Io W → ServerEnd W Fd
  setup_failed : Io W → ServerEnd W Fd
  loop_failed : String → Io W → ServerEnd W Fd

abbrev pub edge_event : ℤ → EpollEvent
edge_event n = record { events = bit_or epollin epollet; data_of = fd n }

module _ {W Fd : Type 0} (os : Os W) (cls : FdClass W Fd) where
  abbrev pub server_added : Fd → Fd → Reply (Unit {0}) × Io W → Prepared W Fd
  server_added server_sfd epoll_fd (returned u, io) = prepared server_sfd epoll_fd io
  server_added server_sfd epoll_fd (failed e, io) = interrupted server_sfd (cls.destroy epoll_fd io)

  abbrev pub epoll_made : Fd → (Bool × Fd) × Io W → Prepared W Fd
  epoll_made server_sfd ((good, epoll_fd), io) =
      let n = cls.get_fd server_sfd in
      if good
      then server_added server_sfd epoll_fd
          (sys_epoll_ctl os (cls.get_fd epoll_fd) ctl_add n (some (edge_event n)) io)
      else interrupted server_sfd (cls.destroy epoll_fd io)

  unfoldable pub add_server : Fd → Io W → Prepared W Fd
  add_server server_sfd io =
      let (r, t) = sys_epoll_create os io in
      epoll_made server_sfd (cls.set_fd (as_int r) cls.empty t)

  -- The object that the setup returns is moved into `server_sfd`, which holds nothing yet; a move is
  -- taken to make no call.
  abbrev pub prepare : ListenerResult W Fd → Prepared W Fd
  prepare (ready server_sfd io) = add_server server_sfd io
  prepare (refused e io) = interrupted cls.empty io

  -- So many rounds of the loop.
  unfoldable pub loop_rounds :
      (Io W → Result (String × Io W) (Io W)) → ℕ → Io W → Result (String × Io W) (Io W)
  loop_rounds round zero io = ok io
  loop_rounds round (suc n) io = round io >>= loop_rounds round n

  -- The `catch` around the loop; an exception ends the scope of `epoll_fd` first.
  abbrev pub caught : Fd → Fd → Result (String × Io W) (Io W) → Outcome (ServerEnd W Fd)
  caught server_sfd epoll_fd (ok io) = ok (still_running server_sfd io)
  caught server_sfd epoll_fd (thrown (e, io)) =
      ok (loop_failed e (cls.close_fd server_sfd (cls.destroy epoll_fd io)).1)
  caught server_sfd epoll_fd (undefined e) = undefined e
  caught server_sfd epoll_fd out_of_fuel = out_of_fuel

  abbrev pub run_loop :
      (Fd → Fd → Io W → Result (String × Io W) (Io W))
      → ℕ
      → Prepared W Fd
      → Outcome (ServerEnd W Fd)
  run_loop round n (prepared server_sfd epoll_fd io) =
      caught server_sfd epoll_fd (loop_rounds (round server_sfd epoll_fd) n io)
  run_loop round n (interrupted server_sfd io) = ok (setup_failed (cls.close_fd server_sfd io).1)

  -- `main`, for so many rounds of the loop.
  unfoldable pub edge_main : (String → ℤ) → List String → ℕ → ℕ → Io W → Outcome (ServerEnd W Fd)
  edge_main atoi argv n fuel io =
      run_loop (λ server_sfd epoll_fd t. event_round os cls server_sfd epoll_fd fuel t) n
        (prepare
          (setup_listener os cls (port_argument argv) (backlog_argument atoi argv) true false io))
