-- ===== src/Setup.antt =====
-- src/servers/multi_worker_nonblocking_io_multiplexing_server.h: `setupServerTcpSocket`, with the
-- `close_fd` of src/utilities/file_descriptor.h. The address list is walked as `getaddrinfo` gives it;
-- `freeaddrinfo` and the text of the messages are left out.
pub mod Calls
pub mod Leaks
pub mod Listens
pub mod Options
pub mod Extends
use Prim.Native.String.{String}
use linux_tcp_servers.Common.{ℕ, ℤ, pos, negsuc, ◌==ℤ◌, if◌then◌else◌, Bool, bit_or, List, [], ◌∷◌}
use linux_tcp_servers.Os.{
  Os, Io, Reply, returned, failed, AddrInfo, sys_getaddrinfo, sys_socket, sys_setsockopt, sys_bind,
  sys_listen, sys_close,
}
use linux_tcp_servers.Os.Flags.{sock_nonblock, so_reuseaddr, so_reuseport}

-- The messages of the three `std::runtime_error`s.
pub data SetupError : Type 0 where
  no_address could_not_bind could_not_listen : SetupError

-- Either a listening descriptor is returned, or an exception leaves the function.
pub data Setup (W : Type 0) : Type 0 where
  listening : ℤ → Io W → Setup W
  raised : SetupError → Io W → Setup W

-- The `int` that `socket` returns.
abbrev pub as_int : Reply ℕ → ℤ
as_int (returned n) = pos n
as_int (failed e) = negsuc 0

module _ {W : Type 0} (os : Os W) where
  -- `fd = -1` in the source is an assignment to the parameter: the caller sees nothing of it.
  abbrev pub close_fd : ℤ → Io W → Io W
  close_fd sfd io = if sfd ==ℤ negsuc 0 then io else sys_close os sfd io

  abbrev pub reuse_option : Bool → ℤ → Io W → Io W
  reuse_option reuse_port sfd io =
      if reuse_port then sys_setsockopt os sfd (bit_or so_reuseaddr so_reuseport) io else io

  abbrev pub socket_type : Bool → AddrInfo → ℕ
  socket_type is_nonblock rp = if is_nonblock then bit_or rp.socktype sock_nonblock else rp.socktype

  -- After the loop.
  abbrev pub listen_on : ℤ → ℤ → Reply (Unit {0}) × Io W → Setup W
  listen_on backlog sfd (returned u, io) = listening sfd io
  listen_on backlog sfd (failed e, io) = raised could_not_listen (close_fd sfd io)

  abbrev pub bound : (Io W → Setup W) → ℤ → ℤ → Reply (Unit {0}) × Io W → Setup W
  bound next backlog sfd (returned u, io) = listen_on backlog sfd (sys_listen os sfd backlog io)
  bound next backlog sfd (failed e, io) = next (close_fd sfd io)

  -- The test `!server_sfd` is of 0, not of -1.
  abbrev pub made : (Io W → Setup W) → ℤ → Bool → AddrInfo → ℤ → Io W → Setup W
  made next backlog reuse_port rp sfd io =
      if sfd ==ℤ pos 0
      then next io
      else bound next backlog sfd (sys_bind os sfd rp.addr (reuse_option reuse_port sfd io))

  abbrev pub tried : (Io W → Setup W) → ℤ → Bool → AddrInfo → Reply ℕ × Io W → Setup W
  tried next backlog reuse_port rp (r, io) = made next backlog reuse_port rp (as_int r) io

  -- The loop over the addresses, and what follows it.
  unfoldable pub try_addresses : ℤ → Bool → Bool → List AddrInfo → Io W → Setup W
  try_addresses backlog is_nonblock reuse_port [] io = raised could_not_bind io
  try_addresses backlog is_nonblock reuse_port (rp ∷ rps) io =
      tried (try_addresses backlog is_nonblock reuse_port rps) backlog reuse_port rp
        (sys_socket os rp.family (socket_type is_nonblock rp) rp.protocol io)

  abbrev pub resolved : ℤ → Bool → Bool → Reply (List AddrInfo) × Io W → Setup W
  resolved backlog is_nonblock reuse_port (returned result, io) =
      try_addresses backlog is_nonblock reuse_port result io
  resolved backlog is_nonblock reuse_port (failed e, io) = raised no_address io

  -- `setupServerTcpSocket`.
  unfoldable pub setup_server_tcp_socket : String → ℤ → Bool → Bool → Io W → Setup W
  setup_server_tcp_socket port_num backlog is_nonblock reuse_port io =
      resolved backlog is_nonblock reuse_port (sys_getaddrinfo os port_num io)
