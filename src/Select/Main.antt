-- ===== src/Select/Main.antt =====
-- src/servers/nonblocking_io_multiplexing_select_server.cpp: `main`, around the loop. The handler of
-- an exception closes the listening socket.
use Prim.Native.String.{String}
use linux_tcp_servers.Common.{
  ℕ, zero, suc, ℤ, true, false, List, [], Outcome, Result, ok, thrown, undefined, out_of_fuel,
  ◌>>=◌,
}
use linux_tcp_servers.Os.{Os, Io}
use linux_tcp_servers.Arguments.{port_argument, backlog_argument}
use linux_tcp_servers.Descriptor.{FdClass}
use linux_tcp_servers.Listener.{ListenerResult, ready, refused, setup_listener}
use linux_tcp_servers.Select.{Select, fd_set, select_round}

-- The server runs, or has failed in its setup or in its loop.
pub data SelectEnd (W : Type 0) : Type 0 where
  serving : Select W → SelectEnd W
  select_refused : Io W → SelectEnd W
  select_failed : String → Io W → SelectEnd W

module _ {W Fd : Type 0} (os : Os W) (cls : FdClass W Fd) where
  -- The sets before the loop.
  abbrev pub first_sets : Fd → Io W → Result (String × Io W) (Select W)
  first_sets server_sfd io = fd_set (cls.get_fd server_sfd) [] >>= λ set. ok (record {
    io = io;
    max_sfd = cls.get_fd server_sfd;
    read_fd_backup_set = set;
    write_fd_backup_set = [];
  })

  unfoldable pub select_rounds : ℕ → ℕ → Fd → Select W → Result (String × Io W) (Select W)
  select_rounds zero fuel server_sfd s = ok s
  select_rounds (suc n) fuel server_sfd s =
      select_round os cls server_sfd fuel s >>= select_rounds n fuel server_sfd

  abbrev pub select_caught : Fd → Result (String × Io W) (Select W) → Outcome (SelectEnd W)
  select_caught server_sfd (ok s) = ok (serving s)
  select_caught server_sfd (thrown (e, io)) = ok (select_failed e (cls.close_fd server_sfd io).1)
  select_caught server_sfd (undefined e) = undefined e
  select_caught server_sfd out_of_fuel = out_of_fuel

  abbrev pub select_from : ℕ → ℕ → ListenerResult W Fd → Outcome (SelectEnd W)
  select_from n fuel (ready server_sfd io) =
      select_caught server_sfd (first_sets server_sfd io >>= select_rounds n fuel server_sfd)
  select_from n fuel (refused e io) = ok (select_refused (cls.close_fd cls.empty io).1)

  -- `main`, for so many rounds of the loop.
  unfoldable pub select_main : (String → ℤ) → List String → ℕ → ℕ → Io W → Outcome (SelectEnd W)
  select_main atoi argv n fuel io =
      select_from n fuel
        (setup_listener os cls (port_argument argv) (backlog_argument atoi argv) true false io)
