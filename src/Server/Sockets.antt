-- ===== src/Server/Sockets.antt =====
-- The setup of a listening socket beside the connections of a sound process.
use Prim.Native.String.{String}
use linux_tcp_servers.Common.{ℕ, ℤ, pos, negsuc, ◌≢◌, refl, ◌==ℤ◌, Bool, List, [], ◌∷◌, if_rule}
use linux_tcp_servers.Os.{
  Os, Io, Reply, returned, failed, EpollData, AddrInfo, sys_bind, sys_listen, sys_getaddrinfo,
  sys_socket,
}
use linux_tcp_servers.Os.Sockets.{Sockets, NewLaw}
use linux_tcp_servers.Connection.Frame.{SameHistory}
use linux_tcp_servers.Connection.History.{received, sent}
use linux_tcp_servers.Manager.{Manager}
use linux_tcp_servers.Setup.{
  Setup, listening, raised, setup_server_tcp_socket, try_addresses, bound, tried, listen_on,
  resolved, reuse_option, socket_type, close_fd,
}
use linux_tcp_servers.Worker.Invariant.{IsSound-Stays}
use linux_tcp_servers.Server.Fresh.{IsFresh-Stays, IsFresh-new, close-Sound}
use linux_tcp_servers.Server.Fresh

module _ {W : Type 0} (os : Os W) (opened : W → ℤ → Type 0) (watched : W → EpollData → Type 0)
    (waiting : W → ℕ) (limit : ℕ) (sockets : Sockets os opened watched waiting limit)
    (m : Manager) where
  abbrev Sound : Io W → Type 0
  Sound = Fresh.Sound os opened watched waiting limit sockets m

  abbrev IsFresh : ℤ → Io W → Type 0
  IsFresh = Fresh.IsFresh os opened watched waiting limit sockets m

  -- A setup that returns leaves a sound process, and a fresh descriptor.
  abbrev pub IsSetUp : Setup W → Type 0
  IsSetUp (listening sfd io) = IsFresh sfd io
  IsSetUp (raised e io) = Unit

  module _ (backlog : ℤ) (is_nonblock reuse_port : Bool) where
    abbrev Next : (Io W → Setup W) → Type 0
    Next next = (io : Io W) → Sound io → IsSetUp (next io)

    close_fd-Sound : (sfd : ℤ) (io : Io W) → IsFresh sfd io → Sound (close_fd os sfd io)
    close_fd-Sound sfd io f =
        if_rule Sound (sfd ==ℤ negsuc 0) (λ e. f.sound)
          (λ e. close-Sound os opened watched waiting limit sockets m sfd io f)

    listen_on-IsSetUp :
        (sfd : ℤ) (io : Io W)
        → IsFresh sfd io
        → IsSetUp (listen_on os backlog sfd (sys_listen os sfd backlog io))
    unfolding received sent
    listen_on-IsSetUp sfd io f = answer (sys_listen os sfd backlog io) (
        IsFresh-Stays os opened watched waiting limit sockets m sfd io _
          (λ j. record { same_received = refl; same_sent = refl })
          (sockets.listen_stays io.world sfd backlog) f)
      where
        answer :
            (r : Reply (Unit {0}) × Io W) → IsFresh sfd r.1 → IsSetUp (listen_on os backlog sfd r)
        answer (returned u, t) g = g
        answer (failed e, t) g = tt

    bound-IsSetUp :
        (next : Io W → Setup W)
        → Next next
        → (sfd : ℤ) (r : Reply (Unit {0}) × Io W) → IsFresh sfd r.1
        → IsSetUp (bound os next backlog sfd r)
    bound-IsSetUp next k sfd (returned u, io) f = listen_on-IsSetUp sfd io f
    bound-IsSetUp next k sfd (failed e, io) f = k (close_fd os sfd io) (close_fd-Sound sfd io f)

    option-IsFresh :
        (sfd : ℤ) (io : Io W) → IsFresh sfd io → IsFresh sfd (reuse_option os reuse_port sfd io)
    unfolding received sent
    option-IsFresh sfd io f =
        if_rule (IsFresh sfd) reuse_port
          (λ e.
            IsFresh-Stays os opened watched waiting limit sockets m sfd io _
              (λ j. record { same_received = refl; same_sent = refl })
              (sockets.option_stays io.world sfd _) f)
          (λ e. f)

    option-Sound : (sfd : ℤ) (io : Io W) → Sound io → Sound (reuse_option os reuse_port sfd io)
    unfolding received sent
    option-Sound sfd io h =
        if_rule Sound reuse_port
          (λ e.
            IsSound-Stays os opened watched waiting limit (λ p. ⊥) (record { io = io; manager = m })
              _ (λ j. record { same_received = refl; same_sent = refl })
              (sockets.option_stays io.world sfd _) h)
          (λ e. h)

    bind-IsSetUp :
        (next : Io W → Setup W)
        → Next next
        → (sfd : ℤ) (addr : ℕ) (io : Io W) → IsFresh sfd io
        → IsSetUp (bound os next backlog sfd (sys_bind os sfd addr io))
    unfolding received sent
    bind-IsSetUp next k sfd addr io f = bound-IsSetUp next k sfd (sys_bind os sfd addr io) (
        IsFresh-Stays os opened watched waiting limit sockets m sfd io _
          (λ j. record { same_received = refl; same_sent = refl })
          (sockets.bind_stays io.world sfd addr) f)

    -- A failed `socket` is -1, which does not bind and is not closed.
    unbound-IsSetUp :
        (next : Io W → Setup W)
        → Next next
        → (addr : ℕ) (io : Io W) → Sound io
        → IsSetUp (bound os next backlog (negsuc 0) (sys_bind os (negsuc 0) addr io))
    unfolding received sent
    unbound-IsSetUp next k addr io h =
        answer (sys_bind os (negsuc 0) addr io) (sockets.bad_fd io.world addr) (
          IsSound-Stays os opened watched waiting limit (λ p. ⊥) (record { io = io; manager = m }) _
            (λ j. record { same_received = refl; same_sent = refl })
            (sockets.bind_stays io.world (negsuc 0) addr) h)
      where
        answer :
            (r : Reply (Unit {0}) × Io W)
            → r.0 ≢ returned tt
            → Sound r.1
            → IsSetUp (bound os next backlog (negsuc 0) r)
        answer (returned tt, t) bad g = absurd (bad refl)
        answer (failed e, t) bad g = k t g

    tried-IsSetUp :
        (next : Io W → Setup W)
        → Next next
        → (rp : AddrInfo) (r : Reply ℕ) (io t : Io W) → ((j : ℤ) → SameHistory j t.trace io.trace)
        → NewLaw os opened watched waiting limit io.world (r, t.world)
        → Sound io
        → IsSetUp (tried os next backlog reuse_port rp (r, t))
    tried-IsSetUp next k rp (returned n) io t same law h =
        if_rule IsSetUp (pos n ==ℤ pos 0) (λ skipped. k t f.sound)
          (λ taken.
            bind-IsSetUp next k (pos n) rp.addr (reuse_option os reuse_port (pos n) t)
              (option-IsFresh (pos n) t f))
      where
        f : IsFresh (pos n) t
        f = IsFresh-new os opened watched waiting limit sockets m n io t same law h
    tried-IsSetUp next k rp (failed e) io t same law h =
        unbound-IsSetUp next k rp.addr (reuse_option os reuse_port (negsuc 0) t) (
          option-Sound (negsuc 0) t (
            IsSound-Stays os opened watched waiting limit (λ p. ⊥) (record { io = io; manager = m })
              t same law h))

    try_addresses-IsSetUp :
        (rps : List AddrInfo) → Next (try_addresses os backlog is_nonblock reuse_port rps)
    unfolding try_addresses received sent
    try_addresses-IsSetUp [] io h = tt
    try_addresses-IsSetUp (rp ∷ rps) io h =
        let (r, t) = sys_socket os rp.family (socket_type os is_nonblock rp) rp.protocol io in
        tried-IsSetUp (λ x. try_addresses os backlog is_nonblock reuse_port rps x)
          (try_addresses-IsSetUp rps) rp r io t
          (λ j. record { same_received = refl; same_sent = refl })
          (sockets.socket_new io.world rp.family (socket_type os is_nonblock rp) rp.protocol) h

    pub setup_server_tcp_socket-IsSetUp :
        (port_num : String) (io : Io W)
        → Sound io
        → IsSetUp (setup_server_tcp_socket os port_num backlog is_nonblock reuse_port io)
    unfolding setup_server_tcp_socket received sent
    setup_server_tcp_socket-IsSetUp port_num io h = answer (sys_getaddrinfo os port_num io) (
        IsSound-Stays os opened watched waiting limit (λ p. ⊥) (record { io = io; manager = m }) _
          (λ j. record { same_received = refl; same_sent = refl })
          (sockets.addr_stays io.world port_num) h)
      where
        answer :
            (r : Reply (List AddrInfo) × Io W)
            → Sound r.1
            → IsSetUp (resolved os backlog is_nonblock reuse_port r)
        answer (returned result, t) g = try_addresses-IsSetUp result t g
        answer (failed e, t) g = tt
