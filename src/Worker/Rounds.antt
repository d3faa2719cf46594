-- ===== src/Worker/Rounds.antt =====
-- A worker's rounds: `epoll_wait`, then the events that it reports.
use linux_tcp_servers.Common.{
  ℕ, ℤ, zero, suc, ◌<◌, ◌≡◌, refl, ◌⊎◌, inl, inr, List, [], ◌∷◌, none, some, Outcome, ok, thrown,
  undefined, out_of_fuel, dangling, out_of_bounds, Fault, Ends, Ends-map, Ends-bind, ◌>>=◌,
}
use linux_tcp_servers.Os.{
  Os, Reply, returned, failed, EpollData, EpollEvent, ptr, fd, wait_call, errno_after,
}
use linux_tcp_servers.Os.Laws.{Transfers}
use linux_tcp_servers.Os.Kernel.{Kernel, Stays, AllWatched, WaitLaw}
use linux_tcp_servers.Connection.{buffer_size}
use linux_tcp_servers.Connection.History.{received, sent}
use linux_tcp_servers.Manager.{Manager}
use linux_tcp_servers.Worker.{
  Worker, Shared, max_events, dispatch, dispatch_all, after_wait, round, start,
}
use linux_tcp_servers.Worker.Invariant.{IsSound, IsSound-Stays, Alive, Exists}
use linux_tcp_servers.Worker.Dispatch.{Faults, dispatch-IsSound}

abbrev pub AnyFault : Fault → Type 0
AnyFault e = (e ≡ out_of_bounds) ⊎ (e ≡ dangling)

-- How the loop of a worker may stand: in a state that satisfies `P`, out of the one exception that it
-- throws, or out of one of two faults. It is never out of fuel.
abbrev pub Runs : {A : Type 0} → (A → Type 0) → Outcome A → Type 0
Runs P (ok a) = P a
Runs P (thrown e) = e ≡ "epoll_wait() failed"
Runs P (undefined e) = AnyFault e
Runs P out_of_fuel = ⊥

pub Runs-of_Ends : {A : Type 0} (P : A → Type 0) (r : Outcome A) → Ends AnyFault P r → Runs P r
Runs-of_Ends P (ok a) h = h
Runs-of_Ends P (thrown e) h = absurd h
Runs-of_Ends P (undefined e) h = h
Runs-of_Ends P out_of_fuel h = h

pub Runs-bind :
    {A B : Type 0} (P : A → Type 0) (Q : B → Type 0) (r : Outcome A) (f : A → Outcome B)
    → Runs P r
    → ((a : A) → P a → Runs Q (f a))
    → Runs Q (r >>= f)
Runs-bind P Q (ok a) f h k = k a h
Runs-bind P Q (thrown e) f h k = h
Runs-bind P Q (undefined e) f h k = h
Runs-bind P Q out_of_fuel f h k = h

pub any_fault : (events : ℕ) (e : Fault) → Faults events e → AnyFault e
any_fault events e (inl bounds) = inl bounds
any_fault events e (inr freed) = inr freed.0

abbrev HeldData : (ℕ → Type 0) → EpollData → Type 0
HeldData held (ptr none) = ⊥
HeldData held (ptr (some p)) = held p
HeldData held (fd n) = ⊥

abbrev AllHeld : (ℕ → Type 0) → List EpollEvent → Type 0
AllHeld held [] = Unit
AllHeld held (e ∷ es) = HeldData held e.data_of × AllHeld held es

held-Alive :
    (held : ℕ → Type 0) (m : Manager)
    → ((p : ℕ) → held p → Exists (m.heap p))
    → (d : EpollData) → HeldData held d
    → Alive m d
held-Alive held m kept (ptr none) h = h
held-Alive held m kept (ptr (some p)) h = kept p h
held-Alive held m kept (fd n) h = h

Alive-held : (m : Manager) (d : EpollData) → Alive m d → HeldData (λ p. Exists (m.heap p)) d
Alive-held m (ptr none) a = a
Alive-held m (ptr (some p)) a = a
Alive-held m (fd n) a = a

module _ {W : Type 0} (os : Os W) (opened : W → ℤ → Type 0) (watched : W → EpollData → Type 0)
    (waiting : W → ℕ) (limit : ℕ) (kernel : Kernel os opened watched waiting limit)
    (laws : Transfers os) (w : Worker) (fuel : ℕ) (buffers : buffer_size < fuel)
    (queues : limit < fuel) where
  -- The invariant, with the pointers `held` kept from being freed.
  abbrev pub SoundWith : (ℕ → Type 0) → Shared W → Type 0
  SoundWith held = IsSound os opened watched waiting limit held

  abbrev pub Sound : Shared W → Type 0
  Sound = SoundWith (λ p. ⊥)

  dispatch_all-Ends :
      (held : ℕ → Type 0) (es : List EpollEvent) (s : Shared W)
      → AllHeld held es
      → SoundWith held s
      → Ends AnyFault (SoundWith held) (dispatch_all os w fuel es s)
  unfolding dispatch_all
  dispatch_all-Ends held [] s a h = h
  dispatch_all-Ends held (e ∷ es) s a h =
      Ends-bind AnyFault (SoundWith held) (SoundWith held) (dispatch os w fuel e s) _
        (Ends-map (Faults e.events) (SoundWith held) AnyFault (SoundWith held) _
          (any_fault e.events) (λ t k. k)
          (dispatch-IsSound os opened watched waiting limit held kernel laws w fuel buffers queues e
            s h (held-Alive held s.manager h.kept e.data_of a.0)))
        (λ t k. dispatch_all-Ends held es t a.1 k)

  pub hold_on :
      (held : ℕ → Type 0) (s : Shared W)
      → ((p : ℕ) → held p → Exists (s.manager.heap p))
      → (others : ℕ → Type 0) → SoundWith others s
      → SoundWith held s
  hold_on held s kept others h = record {
    managed = h.managed;
    echo = h.echo;
    listed = h.listed;
    quiet = h.quiet;
    alive = h.alive;
    kept = kept;
  }

  all_held :
      (s : Shared W) (es : List EpollEvent)
      → Sound s
      → AllWatched os opened watched waiting limit s.io.world es
      → AllHeld (λ p. Exists (s.manager.heap p)) es
  all_held s [] h a = tt
  all_held s (e ∷ es) h a =
      (Alive-held s.manager e.data_of (h.alive e.data_of a.0), all_held s es h a.1)

  abbrev pub waited : Shared W → W → Reply (List EpollEvent) → Shared W
  waited s v r = record s {
    io = record {
      world = v;
      errno = errno_after s.io.errno r;
      trace = wait_call w.epoll_fd r ∷ s.io.trace;
    };
  }

  pub waited-Sound :
      (s : Shared W) (v : W) (r : Reply (List EpollEvent))
      → Stays os opened watched waiting limit s.io.world v
      → Sound s
      → Sound (waited s v r)
  unfolding received sent
  waited-Sound s v r stays h =
      IsSound-Stays os opened watched waiting limit (λ p. ⊥) s (waited s v r).io
        (λ j. record { same_received = refl; same_sent = refl }) stays h

  after_wait-Runs :
      (s : Shared W) (v : W) (r : Reply (List EpollEvent))
      → WaitLaw os opened watched waiting limit s.io.world (r, v)
      → Sound s
      → Runs Sound (after_wait os w fuel (waited s v r) r)
  after_wait-Runs s v (failed e) law h = refl
  after_wait-Runs s v (returned es) (watch, stays) h = Runs-of_Ends Sound _ (
      Ends-map AnyFault (SoundWith here) AnyFault Sound _ (λ e f. f)
        (λ x k. hold_on (λ p. ⊥) x (λ p b. absurd b) here k)
        (dispatch_all-Ends here es t (all_held t es sound watch)
          (hold_on here t (λ p a. a) (λ p. ⊥) sound)))
    where
      t : Shared W
      t = waited s v (returned es)

      sound : Sound t
      sound = waited-Sound s v (returned es) stays h

      here : ℕ → Type 0
      here p = Exists (t.manager.heap p)

  pub round-Runs : (s : Shared W) → Sound s → Runs Sound (round os w fuel s)
  unfolding round
  round-Runs s h =
      let (r, v) = os.epoll_wait s.io.world w.epoll_fd max_events in
      after_wait-Runs s v r (kernel.waits s.io.world w.epoll_fd max_events) h

  -- A worker that starts in a sound state is in a sound state after any number of rounds, whatever
  -- connections, data and events the kernel brings, unless `epoll_wait` has failed, a byte was
  -- stored or logged behind a full buffer, or a connection was used after it had been freed.
  pub start-IsSound : (n : ℕ) (s : Shared W) → Sound s → Runs Sound (start os w n fuel s)
  unfolding start
  start-IsSound zero s h = h
  start-IsSound (suc n) s h =
      Runs-bind Sound Sound (round os w fuel s) _ (round-Runs s h) (λ t k. start-IsSound n t k)
