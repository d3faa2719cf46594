-- ===== src/ReusePort/Agrees.antt =====
-- The two copies of the loop, each translated on its own: that of the utilities and that of the class
-- `linux_concurrent_server`.
use Prim.Native.String.{String}
use linux_tcp_servers.Common.{
  Result, ℕ, ℤ, ◌≡◌, ◌≢◌, refl, ◌∙◌, ap, fun_ext, List, [], ◌∷◌, leaving, repeat, ◌>>=◌,
}
use linux_tcp_servers.Os.{
  Os, Io, EpollEvent, Reply, returned, failed, errno_after, read_call, sys_epoll_wait,
}
use linux_tcp_servers.Descriptor.{FdClass}
use linux_tcp_servers.EventLoop.{
  chunk_size, event_fd, after_chunk, chunk_body, read_chunks, read_client, take_clients, event_all,
  events_reported, event_round,
}
use linux_tcp_servers.ReusePort.{
  handed_on, handling_body, handle_chunks, handle_client, take_connections, handle_event,
  handle_events, events_found, worker_max_events, handling_round,
}
use linux_tcp_servers.ReusePort.Workers.{log_received}

-- What is done with the events, whatever is done with the data, and the end of a stream included.
module _ {W Fd : Type 0} (os : Os W) (cls : FdClass W Fd) (server_sfd epoll_fd : Fd)
    (read_handler : List ℕ → Io W → Io W) (fuel : ℕ) where
  abbrev pub handling_reader : ℤ → Io W → Result (String × Io W) (Io W)
  handling_reader n t = handle_client os cls server_sfd epoll_fd read_handler fuel n t

  event_all-handle_events :
      (es : List EpollEvent) (io : Io W)
      → event_all os cls server_sfd epoll_fd handling_reader fuel es io
        ≡ handle_events os cls server_sfd epoll_fd read_handler fuel es io
  unfolding event_all handle_events take_clients take_connections
  event_all-handle_events [] io = refl
  event_all-handle_events (e ∷ es) io =
      ap
        (λ next.
          (event_fd e.data_of
            >>= handle_event os cls server_sfd epoll_fd read_handler fuel e.events io)
          >>= next)
        (fun_ext (λ t. event_all-handle_events es t))

  pub events_reported-events_found :
      (r : Reply (List EpollEvent) × Io W)
      → events_reported os cls server_sfd epoll_fd handling_reader fuel r
        ≡ events_found os cls server_sfd epoll_fd read_handler fuel r
  events_reported-events_found (failed e, io) = refl
  events_reported-events_found (returned es, io) = event_all-handle_events es io

module _ {W Fd : Type 0} (os : Os W) (cls : FdClass W Fd)
    (brings : (w : W) (n : ℤ) → (os.read w n chunk_size).0 ≢ returned []) (server_sfd epoll_fd : Fd)
    (fuel : ℕ) where
  abbrev logs : List ℕ → Io W → Io W
  logs = log_received os cls

  bodies :
      (n : ℤ) (io : Io W)
      → chunk_body os cls server_sfd epoll_fd n io
        ≡ handling_body os cls server_sfd epoll_fd logs n io
  bodies n io = let (r, v) = os.read io.world n chunk_size in answer r v (brings io.world n)
    where
      noted : Reply (List ℕ) → W → Io W
      noted r v = record {
        world = v;
        errno = errno_after io.errno r;
        trace = read_call n chunk_size r ∷ io.trace;
      }

      answer :
          (r : Reply (List ℕ)) (v : W)
          → r ≢ returned []
          → after_chunk os cls server_sfd epoll_fd n (r, noted r v)
            ≡ handed_on os cls server_sfd epoll_fd logs n (r, noted r v)
      answer (returned []) v some_data = absurd (some_data refl)
      answer (returned (b ∷ bytes)) v some_data = refl
      answer (failed x) v some_data = refl

  clients :
      (n : ℤ) (io : Io W)
      → read_client os cls server_sfd epoll_fd fuel n io
        ≡ handle_client os cls server_sfd epoll_fd logs fuel n io
  unfolding handle_client read_client handle_chunks read_chunks
  clients n io =
      ap
        (λ body.
          leaving (λ x. (x.0, cls.destroy (cls.holding n) x.1)) (cls.destroy (cls.holding n))
            (repeat fuel body io))
        (fun_ext (bodies (cls.get_fd (cls.holding n))))

  -- As long as no `read` finds the end of a stream, a round of the copied loop, with a handler that only
  -- logs, does the same as a round of the loop of the utilities, from every state: the same calls with
  -- the same arguments in the same order, and the same end, an exception included.
  pub event_round-handling_round :
      (io : Io W)
      → event_round os cls server_sfd epoll_fd fuel io
        ≡ handling_round os cls server_sfd epoll_fd logs fuel io
  unfolding event_round handling_round
  event_round-handling_round io =
      ap
        (λ reader.
          events_reported os cls server_sfd epoll_fd reader fuel
            (sys_epoll_wait os (cls.get_fd epoll_fd) worker_max_events io))
        (fun_ext (λ n. fun_ext (λ t. clients n t)))
      ∙ events_reported-events_found os cls server_sfd epoll_fd logs fuel
          (sys_epoll_wait os (cls.get_fd epoll_fd) worker_max_events io)
