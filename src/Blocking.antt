-- ===== src/Blocking.antt =====
-- src/servers/single_client_blocking_io_server.cpp: one client after the other, with blocking calls.
-- The loop that echoes is also that of the forking server's children. Where the source closes the
-- client's descriptor before it leaves that loop, the model leaves the loop and closes it at once.
pub mod Echo
pub mod Main
use Prim.Native.String.{String}
use linux_tcp_servers.Common.{
  ℕ, zero, suc, ℤ, if◌then◌else◌, Bool, true, false, List, [], ◌∷◌, Outcome, ok, ◌>>=◌, Step,
  continue, break, repeat,
}
use linux_tcp_servers.Os.{Os, Io, Reply, returned, failed, sys_accept, sys_read, sys_write}
use linux_tcp_servers.Arguments.{port_argument, backlog_argument}
use linux_tcp_servers.Setup.{as_int}
use linux_tcp_servers.Descriptor.{FdClass}
use linux_tcp_servers.Listener.{ListenerResult, ready, refused, setup_listener}

-- BUFF_SIZE
abbrev pub block_size : ℕ
block_size = 1000

-- Why the loop is left.
pub data EchoEnd (W : Type 0) : Type 0 where
  end_of_file reading_failed writing_failed : Io W → EchoEnd W

-- A client has been served, or an exception is thrown.
pub data Served (W : Type 0) : Type 0 where
  served : Io W → Served W
  failed_with : String → Io W → Served W

-- How a process ends; `running` is one that has not.
pub data Exit (W : Type 0) : Type 0 where
  running success failure : Io W → Exit W

module _ {W Fd : Type 0} (os : Os W) (cls : FdClass W Fd) where
  abbrev pub after_block_write : Reply ℕ × Io W → Outcome (Step (Io W) (EchoEnd W))
  after_block_write (returned n, io) = ok (continue io)
  after_block_write (failed e, io) = ok (break (writing_failed io))

  abbrev pub after_block_read : ℤ → Reply (List ℕ) × Io W → Outcome (Step (Io W) (EchoEnd W))
  after_block_read n (failed e, io) = ok (break (reading_failed io))
  after_block_read n (returned [], io) = ok (break (end_of_file io))
  after_block_read n (returned (b ∷ bytes), io) = after_block_write (sys_write os n (b ∷ bytes) io)

  abbrev pub block_body : ℤ → Io W → Outcome (Step (Io W) (EchoEnd W))
  block_body n io = after_block_read n (sys_read os n block_size io)

  unfoldable pub echo_until : ℕ → ℤ → Io W → Outcome (EchoEnd W)
  echo_until fuel n io = repeat fuel (block_body n) io

  -- `client_sfd.close_fd()`, and the end of the object's scope.
  abbrev pub drop_client : Fd × Io W → Io W
  drop_client (client_sfd, io) = cls.destroy client_sfd io

  abbrev pub close_client : Fd → Io W → Io W
  close_client client_sfd io = drop_client (cls.close_fd client_sfd io)

  abbrev pub session_ended : Fd → EchoEnd W → Outcome (Served W)
  session_ended client_sfd (end_of_file io) = ok (served (close_client client_sfd io))
  session_ended client_sfd (reading_failed io) =
      ok (failed_with "ERROR on reading" (close_client client_sfd io))
  session_ended client_sfd (writing_failed io) =
      ok (failed_with "ERROR on  writing" (close_client client_sfd io))

  abbrev pub client_accepted : ℕ → (Bool × Fd) × Io W → Outcome (Served W)
  client_accepted fuel ((good, client_sfd), io) =
      if good
      then (echo_until fuel (cls.get_fd client_sfd) io >>= session_ended client_sfd)
      else ok (failed_with "Could not accept a new connection" (cls.destroy client_sfd io))

  -- One round of the server's loop.
  unfoldable pub serve_client : ℕ → Fd → Io W → Outcome (Served W)
  serve_client fuel server_sfd io =
      let (r, t) = sys_accept os (cls.get_fd server_sfd) false io in
      client_accepted fuel (cls.set_fd (as_int r) cls.empty t)

  abbrev pub and_then : (Io W → Outcome (Served W)) → Served W → Outcome (Served W)
  and_then next (served io) = next io
  and_then next (failed_with e io) = ok (failed_with e io)

  -- So many rounds.
  unfoldable pub serve_clients : ℕ → ℕ → Fd → Io W → Outcome (Served W)
  serve_clients zero fuel server_sfd io = ok (served io)
  serve_clients (suc n) fuel server_sfd io =
      serve_client fuel server_sfd io >>= and_then (serve_clients n fuel server_sfd)

  -- The handler of the exceptions; `exit` ends no scope.
  abbrev pub exit_failure : Fd → Io W → Exit W
  exit_failure server_sfd io = failure (cls.close_fd server_sfd io).1

  abbrev pub exit_after : Fd → Served W → Outcome (Exit W)
  exit_after server_sfd (served io) = ok (running io)
  exit_after server_sfd (failed_with e io) = ok (exit_failure server_sfd io)

  -- An exception of the setup leaves `server_sfd` as it was.
  abbrev pub serve_from : (Fd → Io W → Outcome (Exit W)) → ListenerResult W Fd → Outcome (Exit W)
  serve_from next (ready server_sfd io) = next server_sfd io
  serve_from next (refused e io) = ok (exit_failure cls.empty io)

  -- `main`, for so many rounds of its loop.
  unfoldable pub single_client_main : (String → ℤ) → List String → ℕ → ℕ → Io W → Outcome (Exit W)
  single_client_main atoi argv clients fuel io =
      serve_from (λ server_sfd t. serve_clients clients fuel server_sfd t >>= exit_after server_sfd)
        (setup_listener os cls (port_argument argv) (backlog_argument atoi argv) false false io)
