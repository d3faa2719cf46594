-- ===== src/Worker/Accept.antt =====
-- `acceptConnections`: its end, and the registration of each new connection.
use native.Mathlib.Nat.{le_trans}
use Prim.Native.Nat.{suc-le-suc}
use linux_tcp_servers.Common.{
  ℕ, ℤ, pos, ◌<◌, ◌≡◌, refl, sym, ◌∙◌, List, inl, inr, true, [], ◌∷◌, none, some, arith, Outcome,
  Fault, Ends, Round, repeat_rule, ◌==◌, ◌==ℤ◌, ==ℤ_iff, Option-cases, Bool-cases, subst,
}
use linux_tcp_servers.Os.{
  Os, Io, Call, Errno, ctl_call, Reply, returned, failed, EpollData, EpollEvent, ptr, ctl_add,
  accept_call, errno_after, sys_epoll_ctl,
}
use linux_tcp_servers.Os.Kernel.{Kernel, Stays, AcceptLaw}
use linux_tcp_servers.Connection.{ConnectionData, connection}
use linux_tcp_servers.Connection.Bounds.{connection-IsValid}
use linux_tcp_servers.Connection.Echo.{IsEcho}
use linux_tcp_servers.Connection.Frame.{SameHistory}
use linux_tcp_servers.Connection.History.{received, sent}
use linux_tcp_servers.Manager.{Manager, insert}
use linux_tcp_servers.Manager.New.{insert_pointer, insert_data, insert_heap}
use linux_tcp_servers.Manager.Invariant.{insert-IsValid}
use linux_tcp_servers.Worker.{
  Worker, Shared, accept_event, registered, after_accept, accept_body, accept_connections,
}
use linux_tcp_servers.Worker.Invariant.{
  IsSound, IsSound-Stays, IsEcho-same, Alive-grow, Alive, Exists,
}

module _ {W : Type 0} (os : Os W) (opened : W → ℤ → Type 0) (watched : W → EpollData → Type 0)
    (waiting : W → ℕ) (limit : ℕ) (held : ℕ → Type 0)
    (kernel : Kernel os opened watched waiting limit) (w : Worker) where
  abbrev Sound : Shared W → Type 0
  Sound = IsSound os opened watched waiting limit held

  module _ (flags : ℕ) (s : Shared W) (k : ℤ) (h : Sound s) (open_now : opened s.io.world k)
      (new : s.manager.data_map k ≡ none)
      (silent : (received k s.io.trace ≡ []) × (sent k s.io.trace ≡ [])) where
    abbrev pub grown : Manager
    grown = (insert k s.manager).1

    abbrev pub event : EpollEvent
    event = record { events = flags; data_of = ptr (insert k s.manager).0 }

    abbrev pub told : Io W
    told = (sys_epoll_ctl os w.epoll_fd ctl_add k (some event) s.io).1

    told-SameHistory : (j : ℤ) → SameHistory j told.trace s.io.trace
    unfolding received sent
    told-SameHistory j = record { same_received = refl; same_sent = refl }

    new-IsEcho : IsEcho k (record { io = told; conn = connection k })
    unfolding connection
    new-IsEcho = record {
      own = refl;
      valid = connection-IsValid k;
      came = (told-SameHistory k).same_received ∙ silent.0;
      went = (told-SameHistory k).same_sent ∙ silent.1;
    }

    grown-IsEcho :
        (p : ℕ) (c : ConnectionData)
        → grown.heap p ≡ some c
        → IsEcho c.conn_fd (record { io = told; conn = c })
    unfolding connection
    grown-IsEcho p c e = elim (Bool-cases (s.manager.next == p)) [
      | inl hit ↦
          let same : connection k ≡ c = ground (arith, insert_heap k s.manager new p) in
          subst (λ x. IsEcho x.conn_fd (record { io = told; conn = x })) same new-IsEcho
      | inr miss ↦
          IsEcho-same c.conn_fd c s.io told (told-SameHistory c.conn_fd)
            (h.echo p c (ground (arith, insert_heap k s.manager new p)))
    ]

    grown-listed : (j : ℤ) (p : ℕ) → grown.data_map j ≡ some p → opened told.world j
    grown-listed j p e =
        kernel.ctl_open s.io.world w.epoll_fd ctl_add k (some event) j
          (elim (Bool-cases (k ==ℤ j)) [
            | inl hit ↦ subst (opened s.io.world) ((==ℤ_iff k j).0 hit) open_now
            | inr miss ↦ h.listed j p (ground (arith, insert_data k s.manager new j))
          ])

    grown-Exists : (p : ℕ) → Exists (s.manager.heap p) → Exists (grown.heap p)
    grown-Exists p a = ground (arith, insert_heap k s.manager new p)

    grown-Alive : (d : EpollData) → watched told.world d → Alive grown d
    grown-Alive d o = elim (kernel.ctl_watched s.io.world w.epoll_fd ctl_add k (some event) d o) [
      | inl old ↦ Alive-grow s.manager grown grown-Exists d (h.alive d old)
      | inr handed ↦ subst (Alive grown) handed (rw (insert_pointer k s.manager new) newest)
    ]
      where
        newest : Exists (grown.heap s.manager.next)
        newest = ground (arith, insert_heap k s.manager new s.manager.next)

    -- A new descriptor is entered in the map and handed to epoll.
    pub register-IsSound : Sound (record { io = told; manager = grown })
    register-IsSound = record {
      managed = insert-IsValid k s.manager h.managed;
      echo = grown-IsEcho;
      listed = grown-listed;
      quiet = λ j closed.
          let q =
            h.quiet j
              (λ o. closed (kernel.ctl_open s.io.world w.epoll_fd ctl_add k (some event) j o)) in
          ((told-SameHistory j).same_received ∙ q.0, (told-SameHistory j).same_sent ∙ q.1);
      alive = grown-Alive;
      kept = λ p a. grown-Exists p (h.kept p a);
    }

  abbrev NoFault : Fault → Type 0
  NoFault e = ⊥

  abbrev queue : Shared W → ℕ
  queue s = waiting s.io.world

  -- The newest call is one of `accept4` on the listening socket that has failed, or of `epoll_ctl` that
  -- should have registered a connection and has failed.
  abbrev pub Stopped : List Call → Type 0
  Stopped (accept_call sfd (failed e) ∷ trace) = sfd ≡ w.server_sfd
  Stopped (ctl_call epfd ctl_add sfd ev (failed e) ∷ trace) = epfd ≡ w.epoll_fd
  Stopped trace = ⊥

  -- A sound state in which nothing is left to accept, as far as the system says.
  pub record HasAccepted (s : Shared W) : Type 0 where
    pub sound : Sound s
    pub stopped : Stopped s.io.trace

  abbrev AcceptGoal : Outcome (Shared W) → Type 0
  AcceptGoal = Ends NoFault HasAccepted

  abbrev accepted : Shared W → W → Reply ℕ → Shared W
  accepted s v r = record s {
    io = record {
      world = v;
      errno = errno_after s.io.errno r;
      trace = accept_call w.server_sfd r ∷ s.io.trace;
    };
  }

  accepted-IsSound :
      (s : Shared W) (v : W) (r : Reply ℕ)
      → Stays os opened watched waiting limit s.io.world v
      → Sound s
      → Sound (accepted s v r)
  unfolding received sent
  accepted-IsSound s v r stays h =
      IsSound-Stays os opened watched waiting limit held s (accepted s v r).io
        (λ j. record { same_received = refl; same_sent = refl }) stays h

  registered-Round :
      (t : Shared W) (bound : ℕ) (r : Reply (Unit {0}))
      → Sound t
      → queue t < bound
      → ((e : Errno) → r ≡ failed e → Stopped t.io.trace)
      → Round Sound AcceptGoal queue bound (registered os w t r)
  registered-Round t bound (returned u) h fewer stop = (h, fewer)
  registered-Round t bound (failed e) h fewer stop = record { sound = h; stopped = stop e refl }

  after_accept-Round :
      (s : Shared W) (v : W) (r : Reply ℕ)
      → AcceptLaw os opened watched waiting limit s.io.world (r, v)
      → Sound s
      → Round Sound AcceptGoal queue (queue s) (after_accept os w (accepted s v r) r)
  unfolding received sent
  after_accept-Round s v (failed e) law h = record {
    sound = accepted-IsSound s v (failed e) law h;
    stopped = refl;
  }
  after_accept-Round s v (returned n) ((closed, open_now), stays, fewer) h =
      registered-Round _ (queue s) _
        (register-IsSound _ t (pos n) (accepted-IsSound s v (returned n) stays h) open_now new
          (h.quiet (pos n) closed))
        (le_trans (suc-le-suc (kernel.ctl_queue v w.epoll_fd ctl_add (pos n) _)) fewer)
        (λ e q.
          subst
            (λ x. Stopped (
              ctl_call w.epoll_fd ctl_add (pos n)
                (some (accept_event os w (insert (pos n) s.manager).0)) x
              ∷ t.io.trace))
            (sym q) refl)
    where
      t : Shared W
      t = accepted s v (returned n)

      new : s.manager.data_map (pos n) ≡ none
      new = elim (Option-cases (s.manager.data_map (pos n))) [
        | inl e ↦ e
        | inr (p, e) ↦ absurd (closed (h.listed (pos n) p e))
      ]

  -- `acceptConnections` ends, with more fuel than the queue may hold, and only where `accept4`, or the
  -- registration of a connection by `epoll_ctl`, has failed: that is its last call. It leaves a sound
  -- state, and meets no undefined behaviour.
  pub accept_connections-IsSound :
      (fuel : ℕ) (s : Shared W)
      → limit < fuel
      → Sound s
      → Ends NoFault HasAccepted (accept_connections os w fuel s)
  unfolding accept_connections
  accept_connections-IsSound fuel s enough h =
      repeat_rule Sound AcceptGoal queue (accept_body os w)
        (λ t i.
          let (r, v) = os.accept t.io.world w.server_sfd true in
          after_accept-Round t v r (kernel.accepts t.io.world w.server_sfd true) i)
        fuel s (omega (arith, kernel.queue_bound s.io.world)) h
