-- ===== src/Listener.antt =====
-- src/utilities/server_utility.cpp: `setup_server_tcp_socket`, the copy of `setupServerTcpSocket` that
-- works on an object of the class `file_descriptor`. An exception ends the object's scope.
pub mod Bound
pub mod Keeps
use Prim.Native.String.{String}
use linux_tcp_servers.Common.{ℕ, ℤ, if◌then◌else◌, Bool, bit_or, List, [], ◌∷◌}
use linux_tcp_servers.Os.{
  Os, Io, Reply, returned, failed, AddrInfo, sys_getaddrinfo, sys_socket, sys_bind, sys_listen,
}
use linux_tcp_servers.Setup.{
  SetupError, no_address, could_not_bind, could_not_listen, as_int, reuse_option, socket_type,
}
use linux_tcp_servers.Descriptor.{FdClass}

pub data ListenerResult (W Fd : Type 0) : Type 0 where
  ready : Fd → Io W → ListenerResult W Fd
  refused : SetupError → Io W → ListenerResult W Fd

module _ {W Fd : Type 0} (os : Os W) (cls : FdClass W Fd) where
  abbrev pub refuse : SetupError → Fd × Io W → ListenerResult W Fd
  refuse e (server_sfd, io) = refused e (cls.destroy server_sfd io)

  abbrev pub listened : Fd → Reply (Unit {0}) × Io W → ListenerResult W Fd
  listened server_sfd (returned u, io) = ready server_sfd io
  listened server_sfd (failed e, io) = refuse could_not_listen (cls.close_fd server_sfd io)

  abbrev pub bind_done :
      (Fd × Io W → ListenerResult W Fd) → ℤ → Fd → Reply (Unit {0}) × Io W → ListenerResult W Fd
  bind_done next backlog server_sfd (returned u, io) =
      listened server_sfd (sys_listen os (cls.get_fd server_sfd) backlog io)
  bind_done next backlog server_sfd (failed e, io) = next (cls.close_fd server_sfd io)

  abbrev pub socket_set :
      (Fd × Io W → ListenerResult W Fd)
      → ℤ
      → Bool
      → AddrInfo
      → (Bool × Fd) × Io W
      → ListenerResult W Fd
  socket_set next backlog reuse_port rp ((good, server_sfd), io) =
      if good
      then bind_done next backlog server_sfd (
          sys_bind os (cls.get_fd server_sfd) rp.addr
            (reuse_option os reuse_port (cls.get_fd server_sfd) io))
      else next (server_sfd, io)

  abbrev pub socket_made :
      (Fd × Io W → ListenerResult W Fd)
      → ℤ
      → Bool
      → AddrInfo
      → Fd
      → Reply ℕ × Io W
      → ListenerResult W Fd
  socket_made next backlog reuse_port rp server_sfd (r, io) =
      socket_set next backlog reuse_port rp (cls.set_fd (as_int r) server_sfd io)

  -- The loop over the addresses, and what follows it.
  unfoldable pub try_each : ℤ → Bool → Bool → List AddrInfo → Fd × Io W → ListenerResult W Fd
  try_each backlog is_nonblock reuse_port [] s = refuse could_not_bind s
  try_each backlog is_nonblock reuse_port (rp ∷ rps) (server_sfd, io) =
      socket_made (try_each backlog is_nonblock reuse_port rps) backlog reuse_port rp server_sfd
        (sys_socket os rp.family (socket_type os is_nonblock rp) rp.protocol io)

  abbrev pub addresses_found : ℤ → Bool → Bool → Reply (List AddrInfo) × Io W → ListenerResult W Fd
  addresses_found backlog is_nonblock reuse_port (returned result, io) =
      try_each backlog is_nonblock reuse_port result (cls.empty, io)
  addresses_found backlog is_nonblock reuse_port (failed e, io) = refuse no_address (cls.empty, io)

  -- `setup_server_tcp_socket`.
  unfoldable pub setup_listener : String → ℤ → Bool → Bool → Io W → ListenerResult W Fd
  setup_listener port_num backlog is_nonblock reuse_port io =
      addresses_found backlog is_nonblock reuse_port (sys_getaddrinfo os port_num io)
