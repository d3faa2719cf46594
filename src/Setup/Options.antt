-- ===== src/Setup/Options.antt =====
-- The option SO_REUSEADDR | SO_REUSEPORT in `setupServerTcpSocket`.
use Prim.Native.String.{String}
use linux_tcp_servers.Common.{
  bit_or, ℕ, ℤ, pos, negsuc, ◌==ℤ◌, Bool, true, false, List, [], ◌∷◌, if_rule,
}
use linux_tcp_servers.Os.{
  Os, Io, Call, Reply, returned, failed, AddrInfo, listen_call, bind_call, option_call, errno_after,
  sys_bind, sys_listen, sys_getaddrinfo, sys_socket,
}
use linux_tcp_servers.Os.Flags.{so_reuseaddr, so_reuseport}
use linux_tcp_servers.Setup.{
  Setup, listening, raised, setup_server_tcp_socket, try_addresses, bound, listen_on, resolved,
  reuse_option, socket_type, close_fd, as_int,
}

abbrev pub io_of : {W : Type 0} → Setup W → Io W
io_of (listening sfd io) = io
io_of (raised e io) = io

-- A call that neither sets an option nor binds.
abbrev IsNeutral : Call → Type 0
IsNeutral (option_call sfd option) = ⊥
IsNeutral (bind_call sfd addr r) = ⊥
IsNeutral c = Unit

-- The calls after `before`. If the port is to be reused, each `bind` comes right after a
-- `setsockopt` of SO_REUSEADDR | SO_REUSEPORT on the same socket, and no other option is set; else
-- no option is set.
pub data SetsOptions (before : List Call) : Bool → List Call → Type 0 where
  nothing_new : {b : Bool} → SetsOptions before b before
  neutral :
      {b : Bool} (c : Call) {t : List Call}
      → IsNeutral c
      → SetsOptions before b t
      → SetsOptions before b (c ∷ t)
  reused :
      (sfd : ℤ) (addr : ℕ) (r : Reply (Unit {0})) {t : List Call}
      → SetsOptions before true t
      → SetsOptions before true
          (bind_call sfd addr r ∷ option_call sfd (bit_or so_reuseaddr so_reuseport) ∷ t)
  not_reused :
      (sfd : ℤ) (addr : ℕ) (r : Reply (Unit {0})) {t : List Call}
      → SetsOptions before false t
      → SetsOptions before false (bind_call sfd addr r ∷ t)

module _ {W : Type 0} (os : Os W) (backlog : ℤ) (is_nonblock : Bool) (before : List Call) where
  abbrev Goal : Bool → Setup W → Type 0
  Goal b r = SetsOptions before b (io_of r).trace

  close_fd-SetsOptions :
      (b : Bool) (sfd : ℤ) (io : Io W)
      → SetsOptions before b io.trace
      → SetsOptions before b (close_fd os sfd io).trace
  close_fd-SetsOptions b sfd io h =
      if_rule (λ (t : Io W). SetsOptions before b t.trace) (sfd ==ℤ negsuc 0) (λ e. h)
        (λ e. neutral _ tt h)

  listened :
      (b : Bool) (sfd : ℤ) (io : Io W)
      → SetsOptions before b io.trace
      → Goal b (listen_on os backlog sfd (sys_listen os sfd backlog io))
  listened b sfd io h = let (r, w) = os.listen io.world sfd backlog in answer r w
    where
      answer :
          (r : Reply (Unit {0})) (w : W)
          → Goal b (
              listen_on os backlog sfd (
                r,
                record {
                  world = w;
                  errno = errno_after io.errno r;
                  trace = listen_call sfd backlog r ∷ io.trace;
                },
              ))
      answer (returned u) w = neutral _ tt h
      answer (failed x) w = close_fd-SetsOptions b sfd _ (neutral _ tt h)

  -- The option, then `bind`.
  after_option :
      (b : Bool) (sfd : ℤ) (addr : ℕ) (r : Reply (Unit {0})) (io : Io W)
      → SetsOptions before b io.trace
      → SetsOptions before b (bind_call sfd addr r ∷ (reuse_option os b sfd io).trace)
  after_option true sfd addr r io h = reused sfd addr r h
  after_option false sfd addr r io h = not_reused sfd addr r h

  bound-SetsOptions :
      (b : Bool) (next : Io W → Setup W)
      → ((io : Io W) → SetsOptions before b io.trace → Goal b (next io))
      → (sfd : ℤ) (addr : ℕ) (io : Io W) → SetsOptions before b io.trace
      → Goal b (bound os next backlog sfd (sys_bind os sfd addr (reuse_option os b sfd io)))
  bound-SetsOptions b next k sfd addr io h =
      let (r, w) = os.bind (reuse_option os b sfd io).world sfd addr in answer r w
    where
      answer :
          (r : Reply (Unit {0})) (w : W)
          → Goal b (
              bound os next backlog sfd (
                r,
                record {
                  world = w;
                  errno = errno_after (reuse_option os b sfd io).errno r;
                  trace = bind_call sfd addr r ∷ (reuse_option os b sfd io).trace;
                },
              ))
      answer (returned u) w = listened b sfd _ (after_option b sfd addr (returned u) io h)
      answer (failed x) w =
          k _ (close_fd-SetsOptions b sfd _ (after_option b sfd addr (failed x) io h))

  try_addresses-SetsOptions :
      (b : Bool) (rps : List AddrInfo) (io : Io W)
      → SetsOptions before b io.trace
      → Goal b (try_addresses os backlog is_nonblock b rps io)
  unfolding try_addresses
  try_addresses-SetsOptions b [] io h = h
  try_addresses-SetsOptions b (rp ∷ rps) io h =
      let (r, next) = sys_socket os rp.family (socket_type os is_nonblock rp) rp.protocol io in
      let k = neutral _ tt h in
      if_rule (Goal b) (as_int r ==ℤ pos 0) (λ skipped. try_addresses-SetsOptions b rps next k)
        (λ taken.
          bound-SetsOptions b (λ x. try_addresses os backlog is_nonblock b rps x)
            (try_addresses-SetsOptions b rps) (as_int r) rp.addr next k)

-- With `reuse_port` each `bind` of the setup comes right after a `setsockopt` of SO_REUSEADDR |
-- SO_REUSEPORT on the same socket, and no other option is set; without, the setup sets no option.
pub setup_server_tcp_socket-SetsOptions :
    {W : Type 0} (os : Os W) (port_num : String) (backlog : ℤ) (is_nonblock reuse_port : Bool)
    (io : Io W)
    → SetsOptions io.trace reuse_port
        (io_of (setup_server_tcp_socket os port_num backlog is_nonblock reuse_port io)).trace
unfolding setup_server_tcp_socket
setup_server_tcp_socket-SetsOptions {W = W} os port_num backlog is_nonblock b io =
    answer (sys_getaddrinfo os port_num io) (neutral _ tt nothing_new)
  where
    answer :
        (r : Reply (List AddrInfo) × Io W)
        → SetsOptions io.trace b r.1.trace
        → SetsOptions io.trace b (io_of (resolved os backlog is_nonblock b r)).trace
    answer (returned result, next) h =
        try_addresses-SetsOptions os backlog is_nonblock io.trace b result next h
    answer (failed e, next) h = h
