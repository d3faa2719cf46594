-- ===== src/Edge/Takes.antt =====
-- The clients that an epoll loop accepts.
use Prim.Native.String.{String}
use linux_tcp_servers.Common.{
  ℕ, ℤ, pos, negsuc, ◌≤◌, ◌<◌, ◌≡◌, sym, ◌∙◌, ap, Bool, true, false, if_rule, [], ◌∷◌, ◌++◌, some,
  arith, Result, inl, inr, Round, repeat_rule,
}
use linux_tcp_servers.Os.{
  Os, Io, Reply, returned, failed, errno_after, would_block, ctl_add, accept_call, ctl_call,
}
use linux_tcp_servers.Setup.{as_int}
use linux_tcp_servers.Descriptor.{FdClass}
use linux_tcp_servers.Descriptor.Finite.{Finite, AcceptTakes}
use linux_tcp_servers.Descriptor.Closes.{Guard}
use linux_tcp_servers.EventLoop.{
  client_event, Taking, client_registered, register_client, client_taken, take_body, drop_taking,
  take_clients,
}
use linux_tcp_servers.Edge.Fds.{
  Settles, Settles-leaving, Misses, OnlyCloses-Misses, accepted_fds, added_fds, OnlyCloses-accepted,
  OnlyCloses-added, Holds, EpollQuiet,
}
use linux_tcp_servers.Edge.Watch.{
  IsWatching, Failing, Settled, closed-IsWatching, destroyed-IsWatching,
}

module _ {W Fd : Type 0} (os : Os W) (cls : FdClass W Fd) (amount : W → ℕ)
    (finite : Finite os cls amount) (guard : Guard cls) (holds : Holds cls)
    (quiet : EpollQuiet os amount) (fuel : ℕ) (server : ℤ) where
  abbrev Watching : Io W → Type 0
  Watching = IsWatching os cls amount finite guard holds quiet fuel server

  abbrev Failed : String × Io W → Type 0
  Failed = Failing os cls amount finite guard holds quiet fuel server

  abbrev Good : Result (String × Io W) (Io W) → Type 0
  Good = Settled os cls amount finite guard holds quiet fuel server

  module _ (server_sfd epoll_fd : Fd) where
    abbrev TakingGood : Taking W Fd → Type 0
    TakingGood a = Watching a.io

    abbrev left : Taking W Fd → ℕ
    left a = amount a.io.world

    abbrev TakeGoal : Result (String × Taking W Fd) (Taking W Fd) → Type 0
    TakeGoal = Settles TakingGood (λ x. Misses server x.1.io.trace)

    -- `accept` has returned `n`, and epoll does not watch it yet.
    record IsPending (n bound : ℕ) (io : Io W) : Type 0 where
      pending : pos n ∷ added_fds io.trace ≡ accepted_fds io.trace ++ (server ∷ [])
      lower : amount io.world < bound

    register-Round :
        (n bound : ℕ) (f : Fd) (t : Io W)
        → bound < fuel
        → cls.get_fd f ≡ pos n
        → IsPending n bound t
        → Round TakingGood TakeGoal left bound
            (register_client os cls server_sfd epoll_fd (record { io = t; client_sfd = f }))
    unfolding added_fds accepted_fds
    register-Round n bound f t room e h =
        let (r, w) =
          os.epoll_ctl t.world (cls.get_fd epoll_fd) ctl_add (cls.get_fd f)
            (some (client_event (cls.get_fd f))) in
        answer r w (
          quiet.ctl_adds_none t.world (cls.get_fd epoll_fd) ctl_add (cls.get_fd f)
            (some (client_event (cls.get_fd f))))
      where
        added : Reply (Unit {0}) → W → Io W
        added r w = record {
          world = w;
          errno = errno_after t.errno r;
          trace =
              ctl_call (cls.get_fd epoll_fd) ctl_add (cls.get_fd f)
                (some (client_event (cls.get_fd f))) r
              ∷ t.trace;
        }

        answer :
            (r : Reply (Unit {0})) (w : W)
            → amount w ≤ amount t.world
            → Round TakingGood TakeGoal left bound (
                client_registered os cls server_sfd epoll_fd
                  (record { io = t; client_sfd = f })
                  (r, added r w))
        answer (returned u) w low = (
          record {
            all_added = ap (λ k. k ∷ added_fds t.trace) e ∙ h.pending;
            enough = omega (arith, h.lower);
          },
          omega (arith, h.lower),
        )
        answer (failed x) w low = inr (n, h.pending)

    taken-Round :
        (n bound : ℕ) (x : (Bool × Fd) × Io W)
        → bound < fuel
        → x.0.0 ≡ true
        → cls.get_fd x.0.1 ≡ pos n
        → IsPending n bound x.1
        → Round TakingGood TakeGoal left bound (client_taken os cls server_sfd epoll_fd x)
    taken-Round n bound ((good, f), t) room is_good e h =
        if_rule (Round TakingGood TakeGoal left bound) good
          (λ y. register-Round n bound f t room e h) (λ y. absurd cc)

    none-Round :
        (bound : ℕ) (x : (Bool × Fd) × Io W)
        → x.0.0 ≡ false
        → Watching x.1
        → Round TakingGood TakeGoal left bound (client_taken os cls server_sfd epoll_fd x)
    none-Round bound ((good, f), t) not_good h =
        if_rule (Round TakingGood TakeGoal left bound) good (λ y. absurd cc)
          (λ y.
            if_rule (Round TakingGood TakeGoal left bound) (would_block t.errno) (λ e. h)
              (λ e. inl h.all_added))

    take_body-Round :
        (a : Taking W Fd)
        → TakingGood a
        → Round TakingGood TakeGoal left (left a) (take_body os cls server_sfd epoll_fd a)
    unfolding added_fds accepted_fds
    take_body-Round a h =
        let (r, v) = os.accept a.io.world (cls.get_fd server_sfd) true in
        answer r v (finite.accept_takes a.io.world (cls.get_fd server_sfd) true)
      where
        taken : Reply ℕ → W → Io W
        taken r v = record {
          world = v;
          errno = errno_after a.io.errno r;
          trace = accept_call (cls.get_fd server_sfd) r ∷ a.io.trace;
        }

        answer :
            (r : Reply ℕ) (v : W)
            → AcceptTakes amount a.io.world (r, v)
            → Round TakingGood TakeGoal left (left a) (
                client_taken os cls server_sfd epoll_fd
                  (cls.set_fd (as_int r) a.client_sfd (taken r v)))
        answer (returned n) v less =
            let t : Io W = taken (returned n) v in
            let c = guard.set_closes (pos n) a.client_sfd t in
            taken-Round n (left a) (cls.set_fd (pos n) a.client_sfd t) h.enough
              (holds.set_good n a.client_sfd t) (holds.set_holds n a.client_sfd t)
              (record {
                pending =
                    ap (λ l. pos n ∷ l) (OnlyCloses-added c ∙ h.all_added)
                    ∙ ap (λ l. l ++ (server ∷ [])) (sym (OnlyCloses-accepted c));
                lower = omega (arith, finite.set_adds_none (pos n) a.client_sfd t);
              })
        answer (failed e) v less =
            let t : Io W = taken (failed e) v in
            none-Round (left a) (cls.set_fd (negsuc 0) a.client_sfd t)
              (finite.set_tells 0 a.client_sfd t)
              (closed-IsWatching os cls amount finite guard holds quiet fuel server t
                (cls.set_fd (negsuc 0) a.client_sfd t).1
                (guard.set_closes (negsuc 0) a.client_sfd t)
                (finite.set_adds_none (negsuc 0) a.client_sfd t)
                (record { all_added = h.all_added; enough = omega (arith, h.enough) }))

    pub take_clients-IsWatching :
        (io : Io W) → Watching io → Good (take_clients os cls server_sfd epoll_fd fuel io)
    unfolding take_clients
    take_clients-IsWatching io h =
        Settles-leaving TakingGood Watching (λ x. Misses server x.1.io.trace) Failed _
          (drop_taking os cls server_sfd epoll_fd) _
          (repeat_rule TakingGood TakeGoal left (take_body os cls server_sfd epoll_fd)
            take_body-Round fuel (record { io = io; client_sfd = cls.empty }) h.enough h)
          (λ x k. OnlyCloses-Misses server (guard.destroy_closes x.1.client_sfd x.1.io) k)
          (λ a k.
            destroyed-IsWatching os cls amount finite guard holds quiet fuel server a.client_sfd
              a.io k)
