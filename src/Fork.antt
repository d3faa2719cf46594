-- ===== src/Fork.antt =====
-- src/servers/fork_process_per_connection_server.cpp: a child for each connection. The model
-- follows one process; where `fork` returns 0 it goes on as the child.
pub mod Main
pub mod Roles
use Prim.Native.String.{String}
use linux_tcp_servers.Common.{
  ℕ, zero, suc, ℤ, if◌then◌else◌, Bool, true, false, List, [], ◌∷◌, Outcome, ok, ◌>>=◌,
}
use linux_tcp_servers.Os.{Os, Io, Reply, returned, failed, sys_accept, sys_fork}
use linux_tcp_servers.Arguments.{port_argument, backlog_argument}
use linux_tcp_servers.Setup.{as_int}
use linux_tcp_servers.Descriptor.{FdClass}
use linux_tcp_servers.Listener.{setup_listener}
use linux_tcp_servers.Blocking.{
  EchoEnd, end_of_file, reading_failed, writing_failed, Exit, running, success, failure, echo_until,
  close_client, exit_failure, serve_from,
}

-- After a round: the loop goes on, the process has ended, or an exception is thrown.
pub data ForkRound (W : Type 0) : Type 0 where
  next_round : Io W → ForkRound W
  child_exits : Io W → ForkRound W
  fork_throws : String → Io W → ForkRound W

module _ {W Fd : Type 0} (os : Os W) (cls : FdClass W Fd) where
  -- At the end of the stream the child exits, which ends no scope.
  abbrev pub child_ended : Fd → EchoEnd W → Outcome (ForkRound W)
  child_ended client_sfd (end_of_file io) = ok (child_exits (cls.close_fd client_sfd io).1)
  child_ended client_sfd (reading_failed io) =
      ok (fork_throws "ERROR on reading" (close_client os cls client_sfd io))
  child_ended client_sfd (writing_failed io) =
      ok (fork_throws "ERROR on  writing" (close_client os cls client_sfd io))

  abbrev pub forked : ℕ → Fd → Reply ℕ × Io W → Outcome (ForkRound W)
  forked fuel client_sfd (failed e, io) = ok (next_round (close_client os cls client_sfd io))
  forked fuel client_sfd (returned (suc pid), io) = ok (next_round (cls.destroy client_sfd io))
  forked fuel client_sfd (returned zero, io) =
      echo_until os cls fuel (cls.get_fd client_sfd) io >>= child_ended client_sfd

  abbrev pub fork_for : ℕ → (Bool × Fd) × Io W → Outcome (ForkRound W)
  fork_for fuel ((good, client_sfd), io) =
      if good
      then forked fuel client_sfd (sys_fork os io)
      else ok (fork_throws "Could not accept a new connection" (cls.destroy client_sfd io))

  -- One round of the server's loop.
  unfoldable pub fork_round : ℕ → Fd → Io W → Outcome (ForkRound W)
  fork_round fuel server_sfd io =
      let (r, t) = sys_accept os (cls.get_fd server_sfd) false io in
      fork_for fuel (cls.set_fd (as_int r) cls.empty t)

  abbrev pub after_round : Fd → (Io W → Outcome (Exit W)) → ForkRound W → Outcome (Exit W)
  after_round server_sfd next (next_round io) = next io
  after_round server_sfd next (child_exits io) = ok (success io)
  after_round server_sfd next (fork_throws e io) = ok (exit_failure os cls server_sfd io)

  -- So many rounds.
  unfoldable pub fork_rounds : ℕ → ℕ → Fd → Io W → Outcome (Exit W)
  fork_rounds zero fuel server_sfd io = ok (running io)
  fork_rounds (suc n) fuel server_sfd io =
      fork_round fuel server_sfd io >>= after_round server_sfd (fork_rounds n fuel server_sfd)

  -- `main`, for so many rounds of its loop.
  unfoldable pub fork_main : (String → ℤ) → List String → ℕ → ℕ → Io W → Outcome (Exit W)
  fork_main atoi argv clients fuel io =
      serve_from os cls (fork_rounds clients fuel)
        (setup_listener os cls (port_argument argv) (backlog_argument atoi argv) false false io)
