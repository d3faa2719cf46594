-- ===== src/Server/Interleave.antt =====
-- The threads of a server, interleaved event by event: a thread that has a turn waits for events, or
-- handles the next one of those that it has been told. The handling of one event runs as a whole.
pub mod Events
use linux_tcp_servers.Common.{
  ℕ, zero, suc, List, [], ◌∷◌, map, Option, none, some, Outcome, ok, thrown, ◌>>=◌,
}
use linux_tcp_servers.Os.{Os, Io, Reply, returned, failed, EpollEvent, sys_epoll_wait}
use linux_tcp_servers.Arguments.{get_elem?}
use linux_tcp_servers.Server.{Server, Thread, worker_of}
use linux_tcp_servers.Worker.{Worker, Shared, max_events, dispatch}

-- A thread, and the events of its last `epoll_wait` that it has not handled yet.
pub record Pending : Type 0 where
  pub thread : Thread
  pub events : List EpollEvent

-- All threads, and what they share.
pub record Process (W : Type 0) : Type 0 where
  pub threads : List Pending
  pub shared : Shared W

abbrev pub at_thread : ℕ → List EpollEvent → List Pending → List Pending
at_thread k es [] = []
at_thread zero es (p ∷ ps) = record p { events = es } ∷ ps
at_thread (suc k) es (p ∷ ps) = p ∷ at_thread k es ps

abbrev pub fresh_threads : List Thread → List Pending
fresh_threads [] = []
fresh_threads (t ∷ ts) = record { thread = t; events = [] } ∷ fresh_threads ts

module _ {W : Type 0} (os : Os W) (fuel : ℕ) (server : Server) where
  abbrev pub told : ℕ → Process W → Io W → Reply (List EpollEvent) → Outcome (Process W)
  told k s io (failed e) = thrown "epoll_wait() failed"
  told k s io (returned es) =
      ok (record { threads = at_thread k es s.threads; shared = record s.shared { io = io } })

  abbrev pub handled : ℕ → List EpollEvent → Process W → Shared W → Outcome (Process W)
  handled k es s t = ok (record { threads = at_thread k es s.threads; shared = t })

  abbrev pub turn : ℕ → Process W → Worker → List EpollEvent → Outcome (Process W)
  turn k s w [] = let (r, io) = sys_epoll_wait os w.epoll_fd max_events s.shared.io in told k s io r
  turn k s w (e ∷ es) = dispatch os w fuel e s.shared >>= handled k es s

  abbrev pub turn_at : ℕ → Process W → Option Pending → Outcome (Process W)
  turn_at k s none = ok s
  turn_at k s (some p) = turn k s (worker_of server p.thread) p.events

  unfoldable pub interleave : List ℕ → Process W → Outcome (Process W)
  interleave [] s = ok s
  interleave (k ∷ ks) s = turn_at k s (get_elem? s.threads k) >>= interleave ks
