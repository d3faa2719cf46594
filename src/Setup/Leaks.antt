-- ===== src/Setup/Leaks.antt =====
-- The sockets that a `setupServerTcpSocket` leaves open.
use Prim.Native.String.{String}
use linux_tcp_servers.Common.{
  ℕ, zero, suc, ℤ, pos, negsuc, ◌≡◌, ◌≢◌, refl, ◌∙◌, ap, Bool, List, [], ◌∷◌, arith, ==_iff, ◌==ℤ◌,
  if_rule,
}
use linux_tcp_servers.Os.{
  Os, Io, Call, Reply, returned, failed, AddrInfo, errno_after, socket_call, addr_call, sys_bind,
  sys_listen,
}
use linux_tcp_servers.Setup.{
  Setup, listening, raised, setup_server_tcp_socket, try_addresses, tried, bound, listen_on,
  resolved, reuse_option, socket_type, close_fd,
}
use linux_tcp_servers.Setup.Calls.{left_open, remove_one}

-- bind(2) fails with EBADF on -1.
pub record SocketLaws {W : Type 0} (os : Os W) : Type 0 where
  pub bad_fd : (w : W) (addr : ℕ) → (os.bind w (negsuc 0) addr).0 ≢ returned tt

-- So many sockets more that have the number 0.
abbrev pub zeros : ℕ → List ℕ → List ℕ
zeros zero before = before
zeros (suc k) before = 0 ∷ zeros k before

abbrev pub ZerosLeft : List ℕ → List Call → Type 0
ZerosLeft before trace = (k : ℕ) × (left_open trace ≡ zeros k before)

abbrev pub OneLeft : ℕ → List ℕ → List Call → Type 0
OneLeft n before trace = (k : ℕ) × (left_open trace ≡ n ∷ zeros k before)

-- The descriptor returned is the one socket more than before, and it is not 0; an exception leaves
-- none. Sockets with the number 0 are left as well.
abbrev pub NoLeak : {W : Type 0} → List ℕ → Setup W → Type 0
NoLeak before (listening (pos zero) io) = ⊥
NoLeak before (listening (pos (suc n)) io) = OneLeft (suc n) before io.trace
NoLeak before (listening (negsuc n) io) = ⊥
NoLeak before (raised e io) = ZerosLeft before io.trace

module _ {W : Type 0} (os : Os W) (laws : SocketLaws os) (backlog : ℤ)
    (is_nonblock reuse_port : Bool) (before : List ℕ) where
  abbrev Next : (Io W → Setup W) → Type 0
  Next next = (io : Io W) → ZerosLeft before io.trace → NoLeak before (next io)

  closed_again :
      (n : ℕ) (io : Io W)
      → OneLeft (suc n) before io.trace
      → ZerosLeft before (close_fd os (pos (suc n)) io).trace
  unfolding left_open remove_one
  closed_again n io (k, h) = (k, ap (remove_one (suc n)) h ∙ ground (arith, ==_iff (suc n) (suc n)))

  listen_on-NoLeak :
      (n : ℕ) (r : Reply (Unit {0}) × Io W)
      → OneLeft (suc n) before r.1.trace
      → NoLeak before (listen_on os backlog (pos (suc n)) r)
  listen_on-NoLeak n (returned u, io) h = h
  listen_on-NoLeak n (failed e, io) h = closed_again n io h

  bound-NoLeak :
      (next : Io W → Setup W)
      → Next next
      → (n : ℕ) (r : Reply (Unit {0}) × Io W) → OneLeft (suc n) before r.1.trace
      → NoLeak before (bound os next backlog (pos (suc n)) r)
  unfolding left_open
  bound-NoLeak next k n (returned u, io) h =
      listen_on-NoLeak n (sys_listen os (pos (suc n)) backlog io) h
  bound-NoLeak next k n (failed e, io) h = k (close_fd os (pos (suc n)) io) (closed_again n io h)

  reuse_keeps :
      (sfd : ℤ) (io : Io W)
      → left_open (reuse_option os reuse_port sfd io).trace ≡ left_open io.trace
  unfolding left_open
  reuse_keeps sfd io = ground arith

  unbound-NoLeak :
      (next : Io W → Setup W)
      → Next next
      → (r : Reply (Unit {0}) × Io W) → r.0 ≢ returned tt
      → ZerosLeft before r.1.trace
      → NoLeak before (bound os next backlog (negsuc 0) r)
  unbound-NoLeak next k (returned tt, io) bad h = absurd (bad refl)
  unbound-NoLeak next k (failed e, io) bad h = k io h

  abbrev Bound : (Io W → Setup W) → ℤ → AddrInfo → Io W → Type 0
  Bound next sfd rp io =
      NoLeak before
        (bound os next backlog sfd (sys_bind os sfd rp.addr (reuse_option os reuse_port sfd io)))

  made-NoLeak :
      (next : Io W → Setup W)
      → Next next
      → (rp : AddrInfo) (n : ℕ) (io : Io W) → OneLeft (suc n) before io.trace
      → Bound next (pos (suc n)) rp io
  unfolding left_open
  made-NoLeak next k rp n io h =
      bound-NoLeak next k n
        (sys_bind os (pos (suc n)) rp.addr (reuse_option os reuse_port (pos (suc n)) io))
        (h.0, reuse_keeps (pos (suc n)) io ∙ h.1)

  unmade-NoLeak :
      (next : Io W → Setup W)
      → Next next
      → (rp : AddrInfo) (io : Io W) → ZerosLeft before io.trace
      → Bound next (negsuc 0) rp io
  unfolding left_open
  unmade-NoLeak next k rp io h =
      let t = reuse_option os reuse_port (negsuc 0) io in
      unbound-NoLeak next k (sys_bind os (negsuc 0) rp.addr t) (laws.bad_fd t.world rp.addr)
        (h.0, reuse_keeps (negsuc 0) io ∙ h.1)

  tried-NoLeak :
      (next : Io W → Setup W)
      → Next next
      → (rp : AddrInfo) (r : Reply ℕ) (io : Io W) → ZerosLeft before io.trace
      → (w : W)
      → NoLeak before (
          tried os next backlog reuse_port rp (
            r,
            record {
              world = w;
              errno = errno_after io.errno r;
              trace =
                  socket_call rp.family (socket_type os is_nonblock rp) rp.protocol r ∷ io.trace;
            },
          ))
  unfolding left_open
  tried-NoLeak next k rp (returned zero) io h w = k _ (suc h.0, ap (λ l. 0 ∷ l) h.1)
  tried-NoLeak next k rp (returned (suc n)) io h w =
      if_rule (NoLeak before) (pos (suc n) ==ℤ pos 0) (λ e. absurd (grind arith))
        (λ e. made-NoLeak next k rp n t (h.0, ap (λ l. suc n ∷ l) h.1))
    where
      t : Io W
      t = record {
        world = w;
        errno = io.errno;
        trace =
            socket_call rp.family (socket_type os is_nonblock rp) rp.protocol (returned (suc n))
            ∷ io.trace;
      }
  tried-NoLeak next k rp (failed e) io h w =
      unmade-NoLeak next k rp
        (record {
          world = w;
          errno = e;
          trace =
              socket_call rp.family (socket_type os is_nonblock rp) rp.protocol (failed e)
              ∷ io.trace;
        })
        h

  try_addresses-NoLeak :
      (rps : List AddrInfo) → Next (try_addresses os backlog is_nonblock reuse_port rps)
  unfolding try_addresses
  try_addresses-NoLeak [] io h = h
  try_addresses-NoLeak (rp ∷ rps) io h =
      let (r, w) = os.socket io.world rp.family (socket_type os is_nonblock rp) rp.protocol in
      tried-NoLeak (λ x. try_addresses os backlog is_nonblock reuse_port rps x)
        (try_addresses-NoLeak rps) rp r io h w

  -- The setup leaves exactly one socket more than there was, the one it returns, and that is not 0; or,
  -- where it throws, whichever of its calls has failed, none: but for sockets that have got the number
  -- 0, which it skips and never closes. `bind` fails on -1.
  pub setup_server_tcp_socket-NoLeak :
      (port_num : String) (io : Io W)
      → left_open io.trace ≡ before
      → NoLeak before (setup_server_tcp_socket os port_num backlog is_nonblock reuse_port io)
  unfolding setup_server_tcp_socket left_open
  setup_server_tcp_socket-NoLeak port_num io h =
      let (r, w) = os.getaddrinfo io.world port_num in answer r w
    where
      answer :
          (r : Reply (List AddrInfo)) (w : W)
          → NoLeak before (
              resolved os backlog is_nonblock reuse_port (
                r,
                record {
                  world = w;
                  errno = errno_after io.errno r;
                  trace = addr_call port_num r ∷ io.trace;
                },
              ))
      answer (returned result) w = try_addresses-NoLeak result _ (0, h)
      answer (failed e) w = (0, h)
