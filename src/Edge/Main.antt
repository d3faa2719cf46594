-- ===== src/Edge/Main.antt =====
-- The edge-triggered server from its command line on.
use Prim.Native.String.{String}
use linux_tcp_servers.Common.{
  Returns, ◌++◌, ℕ, zero, suc, ℤ, ◌≤◌, ◌<◌, ◌≡◌, refl, ◌∙◌, Bool, true, false, if_rule, List, [],
  ◌∷◌, some, arith, Result, ok, thrown, undefined, out_of_fuel,
}
use linux_tcp_servers.Os.{
  Os, Io, Reply, returned, failed, errno_after, ctl_add, ctl_call, create_call,
}
use linux_tcp_servers.Arguments.{port_argument, backlog_argument}
use linux_tcp_servers.Setup.{as_int}
use linux_tcp_servers.Descriptor.{FdClass}
use linux_tcp_servers.Descriptor.Finite.{Finite}
use linux_tcp_servers.Descriptor.Closes.{Guard, OnlyCloses}
use linux_tcp_servers.Listener.{ListenerResult, ready, refused, setup_listener}
use linux_tcp_servers.Listener.Keeps.{Keeps, Kept, setup_listener-Kept}
use linux_tcp_servers.Blocking.Main.{SetupAddsNone}
use linux_tcp_servers.EventLoop.{event_round}
use linux_tcp_servers.Edge.{
  Prepared, prepared, interrupted, ServerEnd, still_running, setup_failed, loop_failed, edge_event,
  server_added, epoll_made, add_server, prepare, loop_rounds, caught, run_loop, edge_main,
}
use linux_tcp_servers.Edge.Watch.{IsWatching, Failing}
use linux_tcp_servers.Edge.Fds.{
  Settles, Settles-bind, Misses, OnlyCloses-Misses, accepted_fds, added_fds, OnlyCloses-accepted,
  OnlyCloses-added, Holds, EpollQuiet,
}
use linux_tcp_servers.Edge.Reads.{event_round-Good}

module _ {W Fd : Type 0} (os : Os W) (cls : FdClass W Fd) (amount : W → ℕ)
    (finite : Finite os cls amount) (guard : Guard cls) (holds : Holds cls)
    (quiet : EpollQuiet os amount) (adds : SetupAddsNone os amount) (fuel : ℕ) where
  -- Nobody has been accepted, nothing is watched, and the fuel is enough for what is to come.
  pub record IsUnwatched (io : Io W) : Type 0 where
    pub none_accepted : accepted_fds io.trace ≡ []
    pub none_added : added_fds io.trace ≡ []
    pub enough : amount io.world < fuel

  closed-IsUnwatched :
      (io t : Io W)
      → OnlyCloses io.trace t.trace
      → amount t.world ≤ amount io.world
      → IsUnwatched io
      → IsUnwatched t
  closed-IsUnwatched io t c low h = record {
    none_accepted = OnlyCloses-accepted c ∙ h.none_accepted;
    none_added = OnlyCloses-added c ∙ h.none_added;
    enough = omega (arith, h.enough);
  }

  set_fd-IsUnwatched :
      (n : ℤ) (f : Fd) (io : Io W) → IsUnwatched io → IsUnwatched (cls.set_fd n f io).1
  set_fd-IsUnwatched n f io h =
      closed-IsUnwatched io (cls.set_fd n f io).1 (guard.set_closes n f io)
        (finite.set_adds_none n f io) h

  IsUnwatched-Keeps : Keeps os cls IsUnwatched
  unfolding accepted_fds added_fds
  IsUnwatched-Keeps = record {
    addr_keeps = λ port io h. record {
      none_accepted = h.none_accepted;
      none_added = h.none_added;
      enough = omega (arith, h.enough, adds.addr_adds_none io.world port);
    };
    socket_keeps = λ f t p io h. record {
      none_accepted = h.none_accepted;
      none_added = h.none_added;
      enough = omega (arith, h.enough, adds.socket_adds_none io.world f t p);
    };
    option_keeps = λ sfd o io h. record {
      none_accepted = h.none_accepted;
      none_added = h.none_added;
      enough = omega (arith, h.enough, adds.option_adds_none io.world sfd o);
    };
    bind_keeps = λ sfd a io h. record {
      none_accepted = h.none_accepted;
      none_added = h.none_added;
      enough = omega (arith, h.enough, adds.bind_adds_none io.world sfd a);
    };
    listen_keeps = λ sfd b io h. record {
      none_accepted = h.none_accepted;
      none_added = h.none_added;
      enough = omega (arith, h.enough, adds.listen_adds_none io.world sfd b);
    };
    set_keeps = set_fd-IsUnwatched;
    close_keeps = λ f io h.
        closed-IsUnwatched io (cls.close_fd f io).1 (guard.close_closes f io)
          (finite.close_adds_none f io) h;
    destroy_keeps = λ f io h.
        closed-IsUnwatched io (cls.destroy f io) (guard.destroy_closes f io)
          (finite.destroy_adds_none f io) h;
  }

  abbrev pub Watching : Fd → Io W → Type 0
  Watching server_sfd =
      IsWatching os cls amount finite guard holds quiet fuel (cls.get_fd server_sfd)

  abbrev pub Failure : Fd → String × Io W → Type 0
  Failure server_sfd = Failing os cls amount finite guard holds quiet fuel (cls.get_fd server_sfd)

  abbrev pub Settled : Fd → Result (String × Io W) (Io W) → Type 0
  Settled server_sfd = Settles (Watching server_sfd) (Failure server_sfd)

  abbrev pub IsPrepared : Prepared W Fd → Type 0
  IsPrepared (prepared server_sfd epoll_fd io) = Watching server_sfd io
  IsPrepared (interrupted server_sfd io) = accepted_fds io.trace ≡ []

  pub add_server-IsPrepared :
      (server_sfd : Fd) (io : Io W) → IsUnwatched io → IsPrepared (add_server os cls server_sfd io)
  unfolding add_server accepted_fds added_fds
  add_server-IsPrepared server_sfd io h =
      let (r, v) = os.epoll_create io.world in
      let t : Io W = record {
        world = v;
        errno = errno_after io.errno r;
        trace = create_call r ∷ io.trace;
      } in
      made (cls.set_fd (as_int r) cls.empty t) (
        set_fd-IsUnwatched (as_int r) cls.empty t (record {
          none_accepted = h.none_accepted;
          none_added = h.none_added;
          enough = omega (arith, h.enough, quiet.create_adds_none io.world);
        }))
    where
      made :
          (x : (Bool × Fd) × Io W) → IsUnwatched x.1 → IsPrepared (epoll_made os cls server_sfd x)
      made ((good, epoll_fd), t) k =
          if_rule IsPrepared good
            (λ e.
              let n : ℤ = cls.get_fd server_sfd in
              let (r, w) =
                os.epoll_ctl t.world (cls.get_fd epoll_fd) ctl_add n (some (edge_event n)) in
              added r w
                (quiet.ctl_adds_none t.world (cls.get_fd epoll_fd) ctl_add n (some (edge_event n))))
            (λ e. OnlyCloses-accepted (guard.destroy_closes epoll_fd t) ∙ k.none_accepted)
        where
          told : Reply (Unit {0}) → W → Io W
          told r w = record {
            world = w;
            errno = errno_after t.errno r;
            trace =
                ctl_call (cls.get_fd epoll_fd) ctl_add (cls.get_fd server_sfd)
                  (some (edge_event (cls.get_fd server_sfd))) r
                ∷ t.trace;
          }

          added :
              (r : Reply (Unit {0})) (w : W)
              → amount w ≤ amount t.world
              → IsPrepared (server_added os cls server_sfd epoll_fd (r, told r w))
          added (returned u) w low = record {
            all_added = rw (k.none_added, k.none_accepted) refl;
            enough = omega (arith, k.enough);
          }
          added (failed x) w low =
              OnlyCloses-accepted (guard.destroy_closes epoll_fd (told (failed x) w))
              ∙ k.none_accepted

  -- The process runs, and epoll watches the listening socket and each accepted client; it has
  -- failed in its setup, with no client; or it has failed in its loop, when at most the client
  -- accepted last is not watched.
  abbrev pub AllWatched : ServerEnd W Fd → Type 0
  AllWatched (still_running server_sfd io) =
      added_fds io.trace ≡ accepted_fds io.trace ++ (cls.get_fd server_sfd ∷ [])
  AllWatched (setup_failed io) = accepted_fds io.trace ≡ []
  AllWatched (loop_failed e io) = (server : ℤ) × Misses server io.trace

  loop_rounds-Watching :
      (server_sfd : Fd) (round : Io W → Result (String × Io W) (Io W))
      → ((io : Io W) → Watching server_sfd io → Settled server_sfd (round io))
      → (n : ℕ) (io : Io W) → Watching server_sfd io
      → Settled server_sfd (loop_rounds os cls round n io)
  unfolding loop_rounds
  loop_rounds-Watching server_sfd round keep zero io h = h
  loop_rounds-Watching server_sfd round keep (suc n) io h =
      Settles-bind (Watching server_sfd) (Watching server_sfd) (Failure server_sfd) (round io) _
        (keep io h) (loop_rounds-Watching server_sfd round keep n)

  caught-AllWatched :
      (server_sfd epoll_fd : Fd) (r : Result (String × Io W) (Io W))
      → Settled server_sfd r
      → Returns AllWatched (caught os cls server_sfd epoll_fd r)
  caught-AllWatched server_sfd epoll_fd (ok io) h = h.all_added
  caught-AllWatched server_sfd epoll_fd (thrown (e, io)) h =
      let t = cls.destroy epoll_fd io in
      let server = cls.get_fd server_sfd in
      (
        server,
        OnlyCloses-Misses server (guard.close_closes server_sfd t)
            (OnlyCloses-Misses server (guard.destroy_closes epoll_fd io) h),
      )
  caught-AllWatched server_sfd epoll_fd (undefined e) h = h
  caught-AllWatched server_sfd epoll_fd out_of_fuel h = h

  -- From a listening socket, for a loop whose rounds keep what epoll watches.
  pub run_loop-AllWatched :
      (round : Fd → Fd → Io W → Result (String × Io W) (Io W))
      → ((server_sfd epoll_fd : Fd) (io : Io W)
          → Watching server_sfd io
          → Settled server_sfd (round server_sfd epoll_fd io))
      → (n : ℕ) (backlog : ℤ) (reuse_port : Bool) (port_num : String) (io : Io W) → IsUnwatched io
      → Returns AllWatched (
          run_loop os cls round n
            (prepare os cls (setup_listener os cls port_num backlog true reuse_port io)))
  run_loop-AllWatched round keep n backlog reuse_port port_num io h =
      from (setup_listener os cls port_num backlog true reuse_port io) (
        setup_listener-Kept os cls IsUnwatched IsUnwatched-Keeps backlog true reuse_port port_num io
          h)
    where
      go : (p : Prepared W Fd) → IsPrepared p → Returns AllWatched (run_loop os cls round n p)
      go (prepared server_sfd epoll_fd t) k =
          caught-AllWatched server_sfd epoll_fd
            (loop_rounds os cls (λ u. round server_sfd epoll_fd u) n t)
            (loop_rounds-Watching server_sfd (λ u. round server_sfd epoll_fd u)
              (keep server_sfd epoll_fd) n t k)
      go (interrupted server_sfd t) k = OnlyCloses-accepted (guard.close_closes server_sfd t) ∙ k

      from :
          (r : ListenerResult W Fd)
          → Kept os cls IsUnwatched IsUnwatched-Keeps backlog true reuse_port r
          → Returns AllWatched (run_loop os cls round n (prepare os cls r))
      from (ready server_sfd t) k =
          go (add_server os cls server_sfd t) (add_server-IsPrepared server_sfd t k)
      from (refused e t) k = OnlyCloses-accepted (guard.close_closes cls.empty t) ∙ k.none_accepted

  -- After any number of rounds the edge-triggered server still runs, and epoll has been told to
  -- watch its listening socket first and then every client that it has accepted, each once and in
  -- that order; or it has failed in its setup, before it has accepted anyone; or it has failed in
  -- its loop, and epoll has been told to watch one descriptor first and then every client that was
  -- accepted, but for at most the last one. While no more clients and data come than the fuel, none
  -- of its loops runs on for ever.
  pub edge_main-AllWatched :
      (atoi : String → ℤ) (argv : List String) (n : ℕ) (io : Io W)
      → IsUnwatched io
      → Returns AllWatched (edge_main os cls atoi argv n fuel io)
  unfolding edge_main
  edge_main-AllWatched atoi argv n io h =
      run_loop-AllWatched (λ server_sfd epoll_fd t. event_round os cls server_sfd epoll_fd fuel t)
        (λ server_sfd epoll_fd t k.
          event_round-Good os cls amount finite guard holds quiet fuel (cls.get_fd server_sfd)
            server_sfd epoll_fd t k)
        n (backlog_argument atoi argv) false (port_argument argv) io h
