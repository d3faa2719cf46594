-- ===== src/Edge/Reads.antt =====
-- The readers of a client's data, in a round of an epoll loop: that of the utilities, and the copy that
-- gives the data to a handler.
use Prim.Native.String.{String}
use linux_tcp_servers.Common.{
  inl, ℕ, ℤ, ◌≤◌, ◌≢◌, refl, subst, if_rule, List, [], ◌∷◌, some, arith, Result, Round, repeat_rule,
}
use linux_tcp_servers.Os.{
  Os, Io, Reply, returned, failed, errno_after, would_block, ctl_mod, ctl_call, read_call,
  sys_epoll_wait,
}
use linux_tcp_servers.Descriptor.{FdClass}
use linux_tcp_servers.Descriptor.Finite.{Finite, ReadTakes}
use linux_tcp_servers.Descriptor.Closes.{Guard}
use linux_tcp_servers.EventLoop.{
  chunk_size, client_event, client_rearmed, read_ends, after_chunk, chunk_body, read_chunks,
  read_client, event_round,
}
use linux_tcp_servers.ReusePort.{
  handed_on, handling_body, handle_chunks, handle_client, handling_round, worker_max_events,
}
use linux_tcp_servers.ReusePort.Agrees.{events_reported-events_found}
use linux_tcp_servers.Edge.Watch.{IsWatching, Failing, destroyed-IsWatching}
use linux_tcp_servers.Edge.Rounds.{round_with-IsWatching}
use linux_tcp_servers.Edge.Fds.{
  Settles, Settles-leaving, OnlyCloses-Misses, accepted_fds, added_fds, Holds, EpollQuiet,
}

module _ {W Fd : Type 0} (os : Os W) (cls : FdClass W Fd) (amount : W → ℕ)
    (finite : Finite os cls amount) (guard : Guard cls) (holds : Holds cls)
    (quiet : EpollQuiet os amount) (fuel : ℕ) (server : ℤ) where
  abbrev Good : Io W → Type 0
  Good = IsWatching os cls amount finite guard holds quiet fuel server

  abbrev Failure : String × Io W → Type 0
  Failure = Failing os cls amount finite guard holds quiet fuel server

  abbrev Settled : Result (String × Io W) (Io W) → Type 0
  Settled = Settles Good Failure

  abbrev remaining : Io W → ℕ
  remaining io = amount io.world

  module _ (server_sfd epoll_fd : Fd) where
    abbrev after : ℤ → Io W → Reply (List ℕ) → W → Io W
    after n io r v = record {
      world = v;
      errno = errno_after io.errno r;
      trace = read_call n chunk_size r ∷ io.trace;
    }

    after-Good :
        (n : ℤ) (io : Io W) (r : Reply (List ℕ)) (v : W)
        → amount v ≤ amount io.world
        → Good io
        → Good (after n io r v)
    unfolding added_fds accepted_fds
    after-Good n io r v low h = record { all_added = h.all_added; enough = omega (arith, h.enough) }

    read_ends-Round :
        (n : ℤ) (bound : ℕ) (io : Io W)
        → Good io
        → Round Good Settled remaining bound (read_ends os cls server_sfd epoll_fd n io)
    unfolding added_fds accepted_fds
    read_ends-Round n bound io h =
        if_rule (Round Good Settled remaining bound) (would_block io.errno)
          (λ e.
            let (r, w) =
              os.epoll_ctl io.world (cls.get_fd epoll_fd) ctl_mod n (some (client_event n)) in
            rearmed r w (
              quiet.ctl_adds_none io.world (cls.get_fd epoll_fd) ctl_mod n (some (client_event n))))
          (λ e. h)
      where
        armed : Reply (Unit {0}) → W → Io W
        armed r w = record {
          world = w;
          errno = errno_after io.errno r;
          trace = ctl_call (cls.get_fd epoll_fd) ctl_mod n (some (client_event n)) r ∷ io.trace;
        }

        rearmed :
            (r : Reply (Unit {0})) (w : W)
            → amount w ≤ amount io.world
            → Round Good Settled remaining bound
                (client_rearmed os cls server_sfd epoll_fd (r, armed r w))
        rearmed (returned u) w low = record {
          all_added = h.all_added;
          enough = omega (arith, h.enough);
        }
        rearmed (failed x) w low = inl h.all_added

    chunk_body-Round :
        (n : ℤ) (io : Io W)
        → Good io
        → Round Good Settled remaining (remaining io) (chunk_body os cls server_sfd epoll_fd n io)
    chunk_body-Round n io h =
        let (r, v) = os.read io.world n chunk_size in
        answer r v (finite.read_takes io.world n chunk_size)
      where
        answer :
            (r : Reply (List ℕ)) (v : W)
            → ReadTakes amount io.world (r, v)
            → Round Good Settled remaining
                (remaining io)
                (after_chunk os cls server_sfd epoll_fd n (r, after n io r v))
        answer (returned []) v less = after-Good n io (returned []) v less h
        answer (returned (b ∷ bytes)) v less =
            (after-Good n io (returned (b ∷ bytes)) v (omega arith) h, less)
        answer (failed x) v less =
            read_ends-Round n (remaining io) (after n io (failed x) v)
              (after-Good n io (failed x) v less h)

    read_client-Good :
        (n : ℤ) (io : Io W) → Good io → Settled (read_client os cls server_sfd epoll_fd fuel n io)
    unfolding read_client read_chunks
    read_client-Good n io h =
        Settles-leaving Good Good Failure Failure (λ x. (x.0, cls.destroy (cls.holding n) x.1))
          (cls.destroy (cls.holding n)) _
          (repeat_rule Good Settled remaining
            (chunk_body os cls server_sfd epoll_fd (cls.get_fd (cls.holding n)))
            (chunk_body-Round (cls.get_fd (cls.holding n))) fuel io h.enough h)
          (λ x k. OnlyCloses-Misses server (guard.destroy_closes (cls.holding n) x.1) k)
          (λ t k.
            destroyed-IsWatching os cls amount finite guard holds quiet fuel server (cls.holding n)
              t k)

    pub event_round-Good :
        (io : Io W) → Good io → Settled (event_round os cls server_sfd epoll_fd fuel io)
    unfolding event_round
    event_round-Good io h =
        round_with-IsWatching os cls amount finite guard holds quiet fuel server server_sfd epoll_fd
          (λ n t. read_client os cls server_sfd epoll_fd fuel n t) read_client-Good io h

    -- No client ends its stream: a `read` brings data or fails. And the handler makes no calls of
    -- its own to accept, to watch or to bring data.
    module _ (read_handler : List ℕ → Io W → Io W)
        (handles : (bytes : List ℕ) (io : Io W)
          → Good io
          → Good (read_handler bytes io) × (amount (read_handler bytes io).world ≤ amount io.world))
        (brings : (w : W) (n : ℤ) → (os.read w n chunk_size).0 ≢ returned []) where
      handling_body-Round :
          (n : ℤ) (io : Io W)
          → Good io
          → Round Good Settled remaining
              (remaining io)
              (handling_body os cls server_sfd epoll_fd read_handler n io)
      handling_body-Round n io h =
          let (r, v) = os.read io.world n chunk_size in
          answer r v (finite.read_takes io.world n chunk_size) (brings io.world n)
        where
          answer :
              (r : Reply (List ℕ)) (v : W)
              → ReadTakes amount io.world (r, v)
              → r ≢ returned []
              → Round Good Settled remaining
                  (remaining io)
                  (handed_on os cls server_sfd epoll_fd read_handler n (r, after n io r v))
          answer (returned []) v less some_data = absurd (some_data refl)
          answer (returned (b ∷ bytes)) v less some_data =
              let t : Io W = after n io (returned (b ∷ bytes)) v in
              let (k, low) =
                handles (b ∷ bytes) t (after-Good n io (returned (b ∷ bytes)) v (omega arith) h) in
              (k, omega arith)
          answer (failed x) v less some_data =
              read_ends-Round n (remaining io) (after n io (failed x) v)
                (after-Good n io (failed x) v less h)

      handle_client-Good :
          (n : ℤ) (io : Io W)
          → Good io
          → Settled (handle_client os cls server_sfd epoll_fd read_handler fuel n io)
      unfolding handle_client handle_chunks
      handle_client-Good n io h =
          Settles-leaving Good Good Failure Failure (λ x. (x.0, cls.destroy (cls.holding n) x.1))
            (cls.destroy (cls.holding n)) _
            (repeat_rule Good Settled remaining
              (handling_body os cls server_sfd epoll_fd read_handler (cls.get_fd (cls.holding n)))
              (handling_body-Round (cls.get_fd (cls.holding n))) fuel io h.enough h)
            (λ x k. OnlyCloses-Misses server (guard.destroy_closes (cls.holding n) x.1) k)
            (λ t k.
              destroyed-IsWatching os cls amount finite guard holds quiet fuel server
                (cls.holding n) t k)

      pub handling_round-Good :
          (io : Io W)
          → Good io
          → Settled (handling_round os cls server_sfd epoll_fd read_handler fuel io)
      unfolding handling_round
      handling_round-Good io h =
          subst Settled
            (events_reported-events_found os cls server_sfd epoll_fd read_handler fuel
              (sys_epoll_wait os (cls.get_fd epoll_fd) worker_max_events io))
            (round_with-IsWatching os cls amount finite guard holds quiet fuel server server_sfd
              epoll_fd (λ n t. handle_client os cls server_sfd epoll_fd read_handler fuel n t)
              handle_client-Good io h)
