-- ===== src/Listener/Bound.antt =====
-- The last calls of a `setup_server_tcp_socket` that returns.
use Prim.Native.String.{String}
use linux_tcp_servers.Common.{ℕ, ℤ, ◌≡◌, refl, Bool, List, [], ◌∷◌, if_rule}
use linux_tcp_servers.Os.{
  Os, Io, Call, Reply, returned, failed, AddrInfo, errno_after, listen_call, bind_call, sys_bind,
  sys_getaddrinfo, sys_socket,
}
use linux_tcp_servers.Setup.{as_int, reuse_option, socket_type}
use linux_tcp_servers.Descriptor.{FdClass}
use linux_tcp_servers.Listener.{
  ListenerResult, ready, refused, listened, bind_done, socket_set, try_each, addresses_found,
  setup_listener,
}

module _ {W Fd : Type 0} (os : Os W) (cls : FdClass W Fd) (backlog : ℤ)
    (is_nonblock reuse_port : Bool) where
  abbrev pub IsListening : ListenerResult W Fd → Type 0
  IsListening (ready server_sfd io) =
      (addr : ℕ) × (earlier : List Call) × (io.trace
        ≡ listen_call (cls.get_fd server_sfd) backlog (returned tt)
          ∷ bind_call (cls.get_fd server_sfd) addr (returned tt)
          ∷ earlier)
  IsListening (refused e io) = Unit

  abbrev Next : (Fd × Io W → ListenerResult W Fd) → Type 0
  Next next = (s : Fd × Io W) → IsListening (next s)

  listened-IsListening :
      (f : Fd) (addr : ℕ) (w v : W) (x : Reply (Unit {0})) (io : Io W)
      → IsListening (
          listened os cls f (
            x,
            record {
              world = v;
              errno = errno_after io.errno x;
              trace =
                  listen_call (cls.get_fd f) backlog x
                  ∷ bind_call (cls.get_fd f) addr (returned tt)
                  ∷ io.trace;
            },
          ))
  listened-IsListening f addr w v (returned tt) io = (addr, io.trace, refl)
  listened-IsListening f addr w v (failed e) io = tt

  bind_done-IsListening :
      (next : Fd × Io W → ListenerResult W Fd)
      → Next next
      → (f : Fd) (addr : ℕ) (io : Io W)
      → IsListening (bind_done os cls next backlog f (sys_bind os (cls.get_fd f) addr io))
  bind_done-IsListening next k f addr io =
      let (r, w) = os.bind io.world (cls.get_fd f) addr in answer r w
    where
      answer :
          (r : Reply (Unit {0})) (w : W)
          → IsListening (
              bind_done os cls next backlog f (
                r,
                record {
                  world = w;
                  errno = errno_after io.errno r;
                  trace = bind_call (cls.get_fd f) addr r ∷ io.trace;
                },
              ))
      answer (returned tt) w =
          let (x, v) = os.listen w (cls.get_fd f) backlog in listened-IsListening f addr w v x io
      answer (failed e) w = k (
          cls.close_fd f (record {
            world = w;
            errno = e;
            trace = bind_call (cls.get_fd f) addr (failed e) ∷ io.trace;
          }))

  socket_set-IsListening :
      (next : Fd × Io W → ListenerResult W Fd)
      → Next next
      → (rp : AddrInfo) (x : (Bool × Fd) × Io W)
      → IsListening (socket_set os cls next backlog reuse_port rp x)
  socket_set-IsListening next k rp ((good, f), io) =
      if_rule IsListening good
        (λ e. bind_done-IsListening next k f rp.addr (reuse_option os reuse_port (cls.get_fd f) io))
        (λ e. k (f, io))

  try_each-IsListening :
      (rps : List AddrInfo) → Next (try_each os cls backlog is_nonblock reuse_port rps)
  unfolding try_each
  try_each-IsListening [] s = tt
  try_each-IsListening (rp ∷ rps) (f, io) =
      let (r, t) = sys_socket os rp.family (socket_type os is_nonblock rp) rp.protocol io in
      socket_set-IsListening (λ s. try_each os cls backlog is_nonblock reuse_port rps s)
        (try_each-IsListening rps) rp (cls.set_fd (as_int r) f t)

  -- When the setup returns an object, its last two calls have bound the descriptor of that object and
  -- made it listen with the given backlog, and both have succeeded, whatever the class does.
  pub setup_listener-IsListening :
      (port_num : String) (io : Io W)
      → IsListening (setup_listener os cls port_num backlog is_nonblock reuse_port io)
  unfolding setup_listener
  setup_listener-IsListening port_num io = answer (sys_getaddrinfo os port_num io)
    where
      answer :
          (r : Reply (List AddrInfo) × Io W)
          → IsListening (addresses_found os cls backlog is_nonblock reuse_port r)
      answer (returned result, t) = try_each-IsListening result (cls.empty, t)
      answer (failed e, t) = tt
