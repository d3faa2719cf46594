-- ===== src/Edge/Rounds.antt =====
-- A round of an epoll loop.
use Prim.Native.String.{String}
use linux_tcp_servers.Common.{
  ℕ, ℤ, ◌≤◌, if_rule, List, [], ◌∷◌, none, arith, ◌==ℤ◌, Result, inl, ◌>>=◌,
}
use linux_tcp_servers.Os.{
  Os, Io, Reply, returned, failed, errno_after, EpollEvent, EpollData, ptr, fd, ctl_del, wait_call,
}
use linux_tcp_servers.Os.Flags.{epollin, epollrdhup, has}
use linux_tcp_servers.Descriptor.{FdClass}
use linux_tcp_servers.Descriptor.Finite.{Finite}
use linux_tcp_servers.Descriptor.Closes.{Guard}
use linux_tcp_servers.EventLoop.{
  loop_max_events, event_fd, close_client, on_event, event_all, events_reported, round_with,
}
use linux_tcp_servers.Edge.Fds.{
  Settles-bind, accepted_fds, added_fds, Holds, CarriesFd, AllCarryFds, WaitLaw, EpollQuiet,
}
use linux_tcp_servers.Edge.Watch.{IsWatching, Failing, Settled}
use linux_tcp_servers.Edge.Takes.{take_clients-IsWatching}

module _ {W Fd : Type 0} (os : Os W) (cls : FdClass W Fd) (amount : W → ℕ)
    (finite : Finite os cls amount) (guard : Guard cls) (holds : Holds cls)
    (quiet : EpollQuiet os amount) (fuel : ℕ) (server : ℤ) where
  abbrev Watching : Io W → Type 0
  Watching = IsWatching os cls amount finite guard holds quiet fuel server

  abbrev Failed : String × Io W → Type 0
  Failed = Failing os cls amount finite guard holds quiet fuel server

  abbrev Good : Result (String × Io W) (Io W) → Type 0
  Good = Settled os cls amount finite guard holds quiet fuel server

  module _ (server_sfd epoll_fd : Fd) where
    close_client-IsWatching :
        (n : ℤ) (io : Io W) → Watching io → Watching (close_client os cls server_sfd epoll_fd n io)
    unfolding added_fds accepted_fds
    close_client-IsWatching n io h = record {
      all_added = h.all_added;
      enough = omega (
        arith,
        h.enough,
        quiet.ctl_adds_none io.world (cls.get_fd epoll_fd) ctl_del n none,
        quiet.sys_close_adds_none (os.epoll_ctl io.world (cls.get_fd epoll_fd) ctl_del n none).1 n,
      );
    }

    module _ (reader : ℤ → Io W → Result (String × Io W) (Io W))
        (reads : (n : ℤ) (io : Io W) → Watching io → Good (reader n io)) where
      on_event-IsWatching :
          (events : ℕ) (io : Io W) (n : ℤ)
          → Watching io
          → Good (on_event os cls server_sfd epoll_fd reader fuel events io n)
      on_event-IsWatching events io n h =
          if_rule Good (has events epollrdhup) (λ e. close_client-IsWatching n io h)
            (λ e.
              if_rule Good (has events epollin)
                (λ e.
                  if_rule Good (n ==ℤ cls.get_fd server_sfd)
                    (λ e.
                      take_clients-IsWatching os cls amount finite guard holds quiet fuel server
                        server_sfd epoll_fd io h)
                    (λ e. reads n io h))
                (λ e. h))

      event_all-IsWatching :
          (es : List EpollEvent) (io : Io W)
          → AllCarryFds es
          → Watching io
          → Good (event_all os cls server_sfd epoll_fd reader fuel es io)
      unfolding event_all
      event_all-IsWatching [] io all h = h
      event_all-IsWatching (e ∷ es) io all h =
          Settles-bind Watching Watching Failed
            (event_fd e.data_of >>= on_event os cls server_sfd epoll_fd reader fuel e.events io)
            (λ t. event_all os cls server_sfd epoll_fd reader fuel es t) (first e.data_of all.0)
            (λ t k. event_all-IsWatching es t all.1 k)
        where
          first :
              (d : EpollData)
              → CarriesFd d
              → Good (event_fd d >>= on_event os cls server_sfd epoll_fd reader fuel e.events io)
          first (fd n) c = on_event-IsWatching e.events io n h
          first (ptr p) c = absurd c

      -- A round of the loop, with what the reader of a client's data keeps.
      pub round_with-IsWatching :
          (io : Io W) → Watching io → Good (round_with os cls server_sfd epoll_fd reader fuel io)
      unfolding added_fds accepted_fds
      round_with-IsWatching io h =
          let (r, v) = os.epoll_wait io.world (cls.get_fd epoll_fd) loop_max_events in
          answer r v (quiet.reports_fds io.world (cls.get_fd epoll_fd) loop_max_events)
            (quiet.wait_adds_none io.world (cls.get_fd epoll_fd) loop_max_events)
        where
          waited : Reply (List EpollEvent) → W → Io W
          waited r v = record {
            world = v;
            errno = errno_after io.errno r;
            trace = wait_call (cls.get_fd epoll_fd) r ∷ io.trace;
          }

          answer :
              (r : Reply (List EpollEvent)) (v : W)
              → WaitLaw r
              → amount v ≤ amount io.world
              → Good (events_reported os cls server_sfd epoll_fd reader fuel (r, waited r v))
          answer (returned es) v all low =
              event_all-IsWatching es (waited (returned es) v) all
                (record { all_added = h.all_added; enough = omega (arith, h.enough) })
          answer (failed e) v all low = inl h.all_added
