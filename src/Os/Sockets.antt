-- ===== src/Os/Sockets.antt =====
-- What Linux promises of the calls that make sockets and epoll instances and close them, over the views
-- of `Os/Kernel`.
use Prim.Native.String.{String}
use linux_tcp_servers.Common.{ℕ, ℤ, pos, negsuc, ◌≢◌}
use linux_tcp_servers.Os.{Os, Reply, returned, failed, EpollData}
use linux_tcp_servers.Os.Kernel.{Stays}

module _ {W : Type 0} (os : Os W) (opened : W → ℤ → Type 0) (watched : W → EpollData → Type 0)
    (waiting : W → ℕ) (limit : ℕ) where
  -- A new descriptor was not open.
  abbrev pub NewLaw : W → Reply ℕ × W → Type 0
  NewLaw w (returned n, w') =
      ((opened w (pos n) → ⊥) × opened w' (pos n)) × Stays os opened watched waiting limit w w'
  NewLaw w (failed e, w') = Stays os opened watched waiting limit w w'

  pub record Sockets : Type 0 where
    pub socket_new : (w : W) (f t p : ℕ) → NewLaw w (os.socket w f t p)
    pub create_new : (w : W) → NewLaw w (os.epoll_create w)
    pub addr_stays :
        (w : W) (port : String) → Stays os opened watched waiting limit w (os.getaddrinfo w port).1
    pub option_stays :
        (w : W) (sfd : ℤ) (o : ℕ) → Stays os opened watched waiting limit w (os.setsockopt w sfd o)
    pub bind_stays :
        (w : W) (sfd : ℤ) (a : ℕ) → Stays os opened watched waiting limit w (os.bind w sfd a).1
    pub listen_stays :
        (w : W) (sfd backlog : ℤ)
        → Stays os opened watched waiting limit w (os.listen w sfd backlog).1
    -- bind(2) fails with EBADF on -1.
    pub bad_fd : (w : W) (a : ℕ) → (os.bind w (negsuc 0) a).0 ≢ returned tt
    -- close(2) closes its own descriptor alone.
    pub close_open : (w : W) (sfd k : ℤ) → k ≢ sfd → opened w k → opened (os.close w sfd) k
    pub close_watched : (w : W) (sfd : ℤ) (d : EpollData) → watched (os.close w sfd) d → watched w d
