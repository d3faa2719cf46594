-- ===== src/Server/Interleave/Events.antt =====
-- Soundness where the threads are interleaved event by event.
use linux_tcp_servers.Common.{
  ℕ, zero, suc, ℤ, ◌<◌, refl, List, [], ◌∷◌, Option, none, some, Ends-map,
}
use linux_tcp_servers.Os.{Os, Reply, returned, failed, EpollData, EpollEvent}
use linux_tcp_servers.Os.Laws.{Transfers}
use linux_tcp_servers.Os.Kernel.{Kernel, AllWatched, WaitLaw}
use linux_tcp_servers.Arguments.{get_elem?}
use linux_tcp_servers.Connection.{buffer_size}
use linux_tcp_servers.Manager.{Manager}
use linux_tcp_servers.Server.{Server, Thread, worker_of}
use linux_tcp_servers.Server.Interleave.{
  Pending, Process, at_thread, fresh_threads, told, handled, turn, turn_at, interleave,
}
use linux_tcp_servers.Worker.{Worker, Shared, max_events, dispatch}
use linux_tcp_servers.Worker.Invariant.{Alive, Alive-grow, Exists}
use linux_tcp_servers.Worker.Dispatch.{Faults, dispatch-IsSound}
use linux_tcp_servers.Worker.Rounds.{
  AnyFault, any_fault, Runs, Runs-bind, Runs-of_Ends, SoundWith, Sound, hold_on, waited,
  waited-Sound,
}
use linux_tcp_servers.Server.Schedule.{AllSound}

-- The pointers of the events are live.
abbrev AllAlive : Manager → List EpollEvent → Type 0
AllAlive m [] = Unit
AllAlive m (e ∷ es) = Alive m e.data_of × AllAlive m es

abbrev ThreadsAlive : Manager → List Pending → Type 0
ThreadsAlive m [] = Unit
ThreadsAlive m (p ∷ ps) = AllAlive m p.events × ThreadsAlive m ps

AllAlive-grow :
    (m m' : Manager)
    → ((p : ℕ) → Exists (m.heap p) → Exists (m'.heap p))
    → (es : List EpollEvent) → AllAlive m es
    → AllAlive m' es
AllAlive-grow m m' f [] a = a
AllAlive-grow m m' f (e ∷ es) (a, b) = (Alive-grow m m' f e.data_of a, AllAlive-grow m m' f es b)

ThreadsAlive-grow :
    (m m' : Manager)
    → ((p : ℕ) → Exists (m.heap p) → Exists (m'.heap p))
    → (ps : List Pending) → ThreadsAlive m ps
    → ThreadsAlive m' ps
ThreadsAlive-grow m m' f [] a = a
ThreadsAlive-grow m m' f (p ∷ ps) (a, b) =
    (AllAlive-grow m m' f p.events a, ThreadsAlive-grow m m' f ps b)

at_thread-ThreadsAlive :
    (m : Manager) (k : ℕ) (es : List EpollEvent) (ps : List Pending)
    → AllAlive m es
    → ThreadsAlive m ps
    → ThreadsAlive m (at_thread k es ps)
at_thread-ThreadsAlive m k es [] a b = b
at_thread-ThreadsAlive m zero es (p ∷ ps) a (b, c) = (a, c)
at_thread-ThreadsAlive m (suc k) es (p ∷ ps) a (b, c) = (b, at_thread-ThreadsAlive m k es ps a c)

AliveAt : Manager → Option Pending → Type 0
AliveAt m none = Unit
AliveAt m (some p) = AllAlive m p.events

get_elem-AliveAt :
    (m : Manager) (k : ℕ) (ps : List Pending) → ThreadsAlive m ps → AliveAt m (get_elem? ps k)
unfolding AliveAt
get_elem-AliveAt m k [] a = tt
get_elem-AliveAt m zero (p ∷ ps) (a, b) = a
get_elem-AliveAt m (suc k) (p ∷ ps) (a, b) = get_elem-AliveAt m k ps b

pub fresh_threads-ThreadsAlive :
    (m : Manager) (ts : List Thread) → ThreadsAlive m (fresh_threads ts)
fresh_threads-ThreadsAlive m [] = tt
fresh_threads-ThreadsAlive m (t ∷ ts) = (tt, fresh_threads-ThreadsAlive m ts)

module _ {W : Type 0} (os : Os W) (opened : W → ℤ → Type 0) (watched : W → EpollData → Type 0)
    (waiting : W → ℕ) (limit : ℕ) (kernel : Kernel os opened watched waiting limit)
    (laws : Transfers os) (fuel : ℕ) (buffers : buffer_size < fuel) (queues : limit < fuel)
    (server : Server) where
  -- The shared state is sound, and every event that a thread has still to handle points to a live
  -- object.
  pub record IsProcess (s : Process W) : Type 0 where
    pub sound :
        AllSound os opened watched waiting limit kernel laws fuel buffers queues server s.shared
    pub pending : ThreadsAlive s.shared.manager s.threads

  watched-AllAlive :
      (w : Worker) (s : Shared W) (es : List EpollEvent)
      → Sound os opened watched waiting limit kernel laws w fuel buffers queues s
      → AllWatched os opened watched waiting limit s.io.world es
      → AllAlive s.manager es
  watched-AllAlive w s [] h a = tt
  watched-AllAlive w s (e ∷ es) h (a, b) = (h.alive e.data_of a, watched-AllAlive w s es h b)

  told-IsProcess :
      (k : ℕ) (s : Process W) (w : Worker) (v : W) (r : Reply (List EpollEvent))
      → WaitLaw os opened watched waiting limit s.shared.io.world (r, v)
      → IsProcess s
      → Runs IsProcess (
          told os fuel server k s
            (waited os opened watched waiting limit kernel laws w fuel buffers queues s.shared v
              r).io
            r)
  told-IsProcess k s w v (failed e) law h = refl
  told-IsProcess k s w v (returned es) (watch, stays) h =
      let t : Shared W =
        waited os opened watched waiting limit kernel laws w fuel buffers queues s.shared v
          (returned es) in
      let sound =
        waited-Sound os opened watched waiting limit kernel laws w fuel buffers queues s.shared v
          (returned es) stays (h.sound w) in
      record {
        sound = λ u. sound;
        pending =
            at_thread-ThreadsAlive s.shared.manager k es s.threads
              (watched-AllAlive w t es sound watch) h.pending;
      }

  turn-IsProcess :
      (k : ℕ) (s : Process W) (w : Worker) (es : List EpollEvent)
      → AllAlive s.shared.manager es
      → IsProcess s
      → Runs IsProcess (turn os fuel server k s w es)
  turn-IsProcess k s w [] a h =
      let (r, v) = os.epoll_wait s.shared.io.world w.epoll_fd max_events in
      told-IsProcess k s w v r (kernel.waits s.shared.io.world w.epoll_fd max_events) h
  turn-IsProcess k s w (e ∷ es) (a, b) h =
      Runs-bind Kept IsProcess (dispatch os w fuel e s.shared) (handled os fuel server k es s)
        (Runs-of_Ends Kept _ (
          Ends-map (Faults e.events) Kept AnyFault Kept _ (any_fault e.events) (λ t x. x)
            (dispatch-IsSound os opened watched waiting limit here kernel laws w fuel buffers queues
              e s.shared
              (hold_on os opened watched waiting limit kernel laws w fuel buffers queues here
                s.shared (λ p x. x) (λ p. ⊥) (h.sound w))
              a)))
        (λ t x. record {
          sound = λ u.
              hold_on os opened watched waiting limit kernel laws u fuel buffers queues (λ p. ⊥) t
                (λ p none_held. absurd none_held) here x;
          pending =
              at_thread-ThreadsAlive t.manager k es s.threads
                (AllAlive-grow s.shared.manager t.manager x.kept es b)
                (ThreadsAlive-grow s.shared.manager t.manager x.kept s.threads h.pending);
        })
    where
      here : ℕ → Type 0
      here p = Exists (s.shared.manager.heap p)

      Kept : Shared W → Type 0
      Kept t = SoundWith os opened watched waiting limit kernel laws w fuel buffers queues here t

  turn_at-IsProcess :
      (k : ℕ) (s : Process W) (o : Option Pending)
      → AliveAt s.shared.manager o
      → IsProcess s
      → Runs IsProcess (turn_at os fuel server k s o)
  unfolding AliveAt
  turn_at-IsProcess k s none a h = h
  turn_at-IsProcess k s (some p) a h = turn-IsProcess k s (worker_of server p.thread) p.events a h

  -- Whatever threads take turns, event by event, in whatever order: a system that is sound at
  -- first, and where every event that a thread has still to handle points to a live object, is such
  -- a system after them, unless `epoll_wait` has failed, a byte was stored or logged behind a full
  -- buffer, or a connection was used after it had been freed; and no turn runs on for ever.
  pub interleave-IsProcess :
      (turns : List ℕ) (s : Process W)
      → IsProcess s
      → Runs IsProcess (interleave os fuel server turns s)
  unfolding interleave
  interleave-IsProcess [] s h = h
  interleave-IsProcess (k ∷ ks) s h =
      Runs-bind IsProcess IsProcess (turn_at os fuel server k s (get_elem? s.threads k)) _
        (turn_at-IsProcess k s (get_elem? s.threads k)
          (get_elem-AliveAt s.shared.manager k s.threads h.pending) h)
        (interleave-IsProcess ks)
