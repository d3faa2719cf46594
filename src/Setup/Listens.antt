-- ===== src/Setup/Listens.antt =====
-- The last calls of a `setupServerTcpSocket` that returns.
use Prim.Native.String.{String}
use linux_tcp_servers.Common.{ℕ, ℤ, pos, ◌≡◌, refl, ◌==ℤ◌, Bool, List, [], ◌∷◌, if_rule, ap}
use linux_tcp_servers.Os.{
  Os, Io, Call, Reply, returned, failed, AddrInfo, errno_after, listen_call, bind_call, sys_bind,
  sys_listen, sys_getaddrinfo, sys_socket,
}
use linux_tcp_servers.Setup.{
  Setup, listening, raised, setup_server_tcp_socket, try_addresses, bound, listen_on, resolved,
  reuse_option, socket_type, as_int,
}

abbrev pub Listens : {W : Type 0} → ℤ → Setup W → Type 0
Listens backlog (listening sfd io) =
    (addr : ℕ) × (earlier : List Call) × (io.trace
      ≡ listen_call sfd backlog (returned tt) ∷ bind_call sfd addr (returned tt) ∷ earlier)
Listens backlog (raised e io) = Unit

module _ {W : Type 0} (os : Os W) (backlog : ℤ) (is_nonblock reuse_port : Bool) where
  listened :
      (sfd : ℤ) (addr : ℕ) (io : Io W) (earlier : List Call)
      → io.trace ≡ bind_call sfd addr (returned tt) ∷ earlier
      → Listens backlog (listen_on os backlog sfd (sys_listen os sfd backlog io))
  listened sfd addr io earlier e = let (r, w) = os.listen io.world sfd backlog in answer r w
    where
      answer :
          (r : Reply (Unit {0})) (w : W)
          → Listens backlog (
              listen_on os backlog sfd (
                r,
                record {
                  world = w;
                  errno = errno_after io.errno r;
                  trace = listen_call sfd backlog r ∷ io.trace;
                },
              ))
      answer (returned u) w = (addr, earlier, ap (λ t. listen_call sfd backlog (returned tt) ∷ t) e)
      answer (failed x) w = tt

  bound-Listens :
      (next : Io W → Setup W)
      → ((io : Io W) → Listens backlog (next io))
      → (sfd : ℤ) (addr : ℕ) (io : Io W)
      → Listens backlog (bound os next backlog sfd (sys_bind os sfd addr io))
  bound-Listens next k sfd addr io = let (r, w) = os.bind io.world sfd addr in answer r w
    where
      answer :
          (r : Reply (Unit {0})) (w : W)
          → Listens backlog (
              bound os next backlog sfd (
                r,
                record {
                  world = w;
                  errno = errno_after io.errno r;
                  trace = bind_call sfd addr r ∷ io.trace;
                },
              ))
      answer (returned u) w = listened sfd addr _ io.trace refl
      answer (failed x) w = k _

  try_addresses-Listens :
      (rps : List AddrInfo) (io : Io W)
      → Listens backlog (try_addresses os backlog is_nonblock reuse_port rps io)
  unfolding try_addresses
  try_addresses-Listens [] io = tt
  try_addresses-Listens (rp ∷ rps) io =
      let (r, next) = sys_socket os rp.family (socket_type os is_nonblock rp) rp.protocol io in
      if_rule (Listens backlog) (as_int r ==ℤ pos 0) (λ skipped. try_addresses-Listens rps next)
        (λ taken.
          bound-Listens _ (try_addresses-Listens rps) (as_int r) rp.addr
            (reuse_option os reuse_port (as_int r) next))

  -- When the setup returns a descriptor, its last two calls have bound that descriptor and made it
  -- listen with the given backlog, and both have succeeded.
  pub setup_server_tcp_socket-Listens :
      (port_num : String) (io : Io W)
      → Listens backlog (setup_server_tcp_socket os port_num backlog is_nonblock reuse_port io)
  unfolding setup_server_tcp_socket
  setup_server_tcp_socket-Listens port_num io = answer (sys_getaddrinfo os port_num io)
    where
      answer :
          (r : Reply (List AddrInfo) × Io W)
          → Listens backlog (resolved os backlog is_nonblock reuse_port r)
      answer (returned result, next) = try_addresses-Listens result next
      answer (failed e, next) = tt
