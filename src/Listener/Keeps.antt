-- ===== src/Listener/Keeps.antt =====
-- Predicates that the calls of a `setup_server_tcp_socket` keep.
use Prim.Native.String.{String}
use linux_tcp_servers.Common.{ℕ, ℤ, Bool, List, [], ◌∷◌, if_rule}
use linux_tcp_servers.Os.{
  Os, Io, Reply, returned, failed, AddrInfo, sys_bind, sys_listen, sys_setsockopt, sys_getaddrinfo,
  sys_socket,
}
use linux_tcp_servers.Setup.{as_int, reuse_option, socket_type}
use linux_tcp_servers.Descriptor.{FdClass}
use linux_tcp_servers.Listener.{
  ListenerResult, ready, refused, listened, bind_done, socket_set, try_each, addresses_found,
  setup_listener,
}

pub record Keeps {W Fd : Type 0} (os : Os W) (cls : FdClass W Fd) (P : Io W → Type 0) : Type 0 where
  pub addr_keeps : (port : String) (io : Io W) → P io → P (sys_getaddrinfo os port io).1
  pub socket_keeps : (f t p : ℕ) (io : Io W) → P io → P (sys_socket os f t p io).1
  pub option_keeps : (sfd : ℤ) (o : ℕ) (io : Io W) → P io → P (sys_setsockopt os sfd o io)
  pub bind_keeps : (sfd : ℤ) (a : ℕ) (io : Io W) → P io → P (sys_bind os sfd a io).1
  pub listen_keeps : (sfd backlog : ℤ) (io : Io W) → P io → P (sys_listen os sfd backlog io).1
  pub set_keeps : (n : ℤ) (f : Fd) (io : Io W) → P io → P (cls.set_fd n f io).1
  pub close_keeps : (f : Fd) (io : Io W) → P io → P (cls.close_fd f io).1
  pub destroy_keeps : (f : Fd) (io : Io W) → P io → P (cls.destroy f io)

module _ {W Fd : Type 0} (os : Os W) (cls : FdClass W Fd) (P : Io W → Type 0)
    (keeps : Keeps os cls P) (backlog : ℤ) (is_nonblock reuse_port : Bool) where
  abbrev pub Kept : ListenerResult W Fd → Type 0
  Kept (ready server_sfd io) = P io
  Kept (refused e io) = P io

  abbrev Next : (Fd × Io W → ListenerResult W Fd) → Type 0
  Next next = (s : Fd × Io W) → P s.1 → Kept (next s)

  listened-Kept : (f : Fd) (r : Reply (Unit {0}) × Io W) → P r.1 → Kept (listened os cls f r)
  listened-Kept f (returned u, io) h = h
  listened-Kept f (failed e, io) h =
      let (g, t) = cls.close_fd f io in keeps.destroy_keeps g t (keeps.close_keeps f io h)

  bind_done-Kept :
      (next : Fd × Io W → ListenerResult W Fd)
      → Next next
      → (f : Fd) (r : Reply (Unit {0}) × Io W) → P r.1
      → Kept (bind_done os cls next backlog f r)
  bind_done-Kept next k f (returned u, io) h =
      listened-Kept f (sys_listen os (cls.get_fd f) backlog io)
        (keeps.listen_keeps (cls.get_fd f) backlog io h)
  bind_done-Kept next k f (failed e, io) h = k (cls.close_fd f io) (keeps.close_keeps f io h)

  option-Kept : (n : ℤ) (io : Io W) → P io → P (reuse_option os reuse_port n io)
  option-Kept n io h = if_rule P reuse_port (λ e. keeps.option_keeps n _ io h) (λ e. h)

  socket_set-Kept :
      (next : Fd × Io W → ListenerResult W Fd)
      → Next next
      → (rp : AddrInfo) (x : (Bool × Fd) × Io W) → P x.1
      → Kept (socket_set os cls next backlog reuse_port rp x)
  socket_set-Kept next k rp ((good, f), io) h =
      let t = reuse_option os reuse_port (cls.get_fd f) io in
      if_rule Kept good
        (λ e.
          bind_done-Kept next k f (sys_bind os (cls.get_fd f) rp.addr t)
            (keeps.bind_keeps (cls.get_fd f) rp.addr t (option-Kept (cls.get_fd f) io h)))
        (λ e. k (f, io) h)

  try_each-Kept : (rps : List AddrInfo) → Next (try_each os cls backlog is_nonblock reuse_port rps)
  unfolding try_each
  try_each-Kept [] (f, io) h = keeps.destroy_keeps f io h
  try_each-Kept (rp ∷ rps) (f, io) h =
      let (r, t) = sys_socket os rp.family (socket_type os is_nonblock rp) rp.protocol io in
      socket_set-Kept (λ s. try_each os cls backlog is_nonblock reuse_port rps s)
        (try_each-Kept rps) rp (cls.set_fd (as_int r) f t)
        (keeps.set_keeps (as_int r) f t
          (keeps.socket_keeps rp.family (socket_type os is_nonblock rp) rp.protocol io h))

  pub setup_listener-Kept :
      (port_num : String) (io : Io W)
      → P io
      → Kept (setup_listener os cls port_num backlog is_nonblock reuse_port io)
  unfolding setup_listener
  setup_listener-Kept port_num io h =
      answer (sys_getaddrinfo os port_num io) (keeps.addr_keeps port_num io h)
    where
      answer :
          (r : Reply (List AddrInfo) × Io W)
          → P r.1
          → Kept (addresses_found os cls backlog is_nonblock reuse_port r)
      answer (returned result, t) g = try_each-Kept result (cls.empty, t) g
      answer (failed e, t) g = keeps.destroy_keeps cls.empty t g
