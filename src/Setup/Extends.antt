-- ===== src/Setup/Extends.antt =====
-- The trace of a `setupServerTcpSocket`, as a longer trace than before.
use Prim.Native.String.{String}
use linux_tcp_servers.Common.{ℤ, pos, negsuc, ◌==ℤ◌, Bool, List, [], ◌∷◌, if_rule}
use linux_tcp_servers.Os.{
  Os, Io, Call, Reply, returned, failed, AddrInfo, sys_bind, sys_listen, sys_getaddrinfo,
  sys_socket,
}
use linux_tcp_servers.Setup.{
  Setup, setup_server_tcp_socket, try_addresses, bound, listen_on, resolved, reuse_option,
  socket_type, close_fd, as_int,
}
use linux_tcp_servers.Setup.Options.{io_of}

module _ {W : Type 0} (os : Os W) (P : List Call → Type 0)
    (keep : (c : Call) (t : List Call) → P t → P (c ∷ t)) (backlog : ℤ)
    (is_nonblock reuse_port : Bool) where
  abbrev Kept : Setup W → Type 0
  Kept r = P (io_of r).trace

  close_keeps : (sfd : ℤ) (io : Io W) → P io.trace → P (close_fd os sfd io).trace
  close_keeps sfd io h =
      if_rule (λ (t : Io W). P t.trace) (sfd ==ℤ negsuc 0) (λ e. h) (λ e. keep _ io.trace h)

  option_keeps : (sfd : ℤ) (io : Io W) → P io.trace → P (reuse_option os reuse_port sfd io).trace
  option_keeps sfd io h =
      if_rule (λ (t : Io W). P t.trace) reuse_port (λ e. keep _ io.trace h) (λ e. h)

  listen_keeps :
      (sfd : ℤ) (r : Reply (Unit {0}) × Io W) → P r.1.trace → Kept (listen_on os backlog sfd r)
  listen_keeps sfd (returned u, io) h = h
  listen_keeps sfd (failed e, io) h = close_keeps sfd io h

  bound_keeps :
      (next : Io W → Setup W)
      → ((io : Io W) → P io.trace → Kept (next io))
      → (sfd : ℤ) (r : Reply (Unit {0}) × Io W) → P r.1.trace
      → Kept (bound os next backlog sfd r)
  bound_keeps next k sfd (returned u, io) h =
      listen_keeps sfd (sys_listen os sfd backlog io) (keep _ io.trace h)
  bound_keeps next k sfd (failed e, io) h = k (close_fd os sfd io) (close_keeps sfd io h)

  try_addresses_keeps :
      (rps : List AddrInfo) (io : Io W)
      → P io.trace
      → Kept (try_addresses os backlog is_nonblock reuse_port rps io)
  unfolding try_addresses
  try_addresses_keeps [] io h = h
  try_addresses_keeps (rp ∷ rps) io h =
      let (r, next) = sys_socket os rp.family (socket_type os is_nonblock rp) rp.protocol io in
      let t = reuse_option os reuse_port (as_int r) next in
      if_rule Kept (as_int r ==ℤ pos 0)
        (λ skipped. try_addresses_keeps rps next (keep _ io.trace h))
        (λ taken.
          bound_keeps (λ x. try_addresses os backlog is_nonblock reuse_port rps x)
            (try_addresses_keeps rps) (as_int r) (sys_bind os (as_int r) rp.addr t)
            (keep _ t.trace (option_keeps (as_int r) next (keep _ io.trace h))))

  resolved_keeps :
      (r : Reply (List AddrInfo) × Io W)
      → P r.1.trace
      → Kept (resolved os backlog is_nonblock reuse_port r)
  resolved_keeps (returned result, io) h = try_addresses_keeps result io h
  resolved_keeps (failed e, io) h = h

  pub setup_server_tcp_socket-keeps :
      (port_num : String) (io : Io W)
      → P io.trace
      → P (io_of (setup_server_tcp_socket os port_num backlog is_nonblock reuse_port io)).trace
  unfolding setup_server_tcp_socket
  setup_server_tcp_socket-keeps port_num io h =
      resolved_keeps (sys_getaddrinfo os port_num io) (keep _ io.trace h)
