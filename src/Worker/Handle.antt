-- ===== src/Worker/Handle.antt =====
-- `handleConnectionEvent` within the whole process: its own connection, and all the others.
use linux_tcp_servers.Common.{
  ℕ, ℤ, ◌<◌, ◌≡◌, ◌≢◌, refl, sym, ◌∙◌, subst, ap, false, inl, inr, [], some, arith, Outcome, Ends,
  Ends-and, Ends-bind, ◌==◌, Bool-cases, if◌then◌else◌,
}
use linux_tcp_servers.Os.{Os, EpollData}
use linux_tcp_servers.Os.Laws.{Transfers}
use linux_tcp_servers.Os.Kernel.{Kernel}
use linux_tcp_servers.Connection.{ConnectionData, Handling, buffer_size, handle_connection_event}
use linux_tcp_servers.Connection.Bounds.{OnlyBounds}
use linux_tcp_servers.Connection.Bounds
use linux_tcp_servers.Connection.Echo.{IsEcho, handle_connection_event-IsEcho}
use linux_tcp_servers.Connection.Frame.{Frame, handle_connection_event-Frame}
use linux_tcp_servers.Connection.History.{received, sent}
use linux_tcp_servers.Manager.{Manager, assign}
use linux_tcp_servers.Manager.Invariant.{assign-IsValid}
use linux_tcp_servers.Worker.{Worker, Shared, handle}
use linux_tcp_servers.Worker.Invariant.{IsSound, IsEcho-same, Alive, Alive-grow, Exists}

module _ {W : Type 0} (os : Os W) (opened : W → ℤ → Type 0) (watched : W → EpollData → Type 0)
    (waiting : W → ℕ) (limit : ℕ) (held : ℕ → Type 0)
    (kernel : Kernel os opened watched waiting limit) (laws : Transfers os) (w : Worker) where
  abbrev Sound : Shared W → Type 0
  Sound = IsSound os opened watched waiting limit held

  -- What the handler did to the connection `c` behind `p`.
  module _ (s : Shared W) (p : ℕ) (c : ConnectionData) (h : Sound s)
      (live : s.manager.heap p ≡ some c) (t : Handling W) (done : IsEcho c.conn_fd t)
      (frame : Frame os opened watched waiting limit kernel c.conn_fd p s.io t.io) where
    abbrev changed : Manager
    changed = assign p t.conn s.manager

    heap-changed : (q : ℕ) → changed.heap q ≡ (if p == q then some t.conn else s.manager.heap q)
    unfolding assign
    heap-changed q = refl

    data-changed : (j : ℤ) → changed.data_map j ≡ s.manager.data_map j
    unfolding assign
    data-changed j = refl

    -- Another object is of another descriptor.
    other_fd :
        (q : ℕ) (d : ConnectionData)
        → (p == q) ≡ false
        → s.manager.heap q ≡ some d
        → d.conn_fd ≢ c.conn_fd
    other_fd q d miss e same =
        ground (arith, h.managed.known p c live, h.managed.known q d e, ap s.manager.data_map same)

    changed-IsEcho :
        (q : ℕ) (d : ConnectionData)
        → changed.heap q ≡ some d
        → IsEcho d.conn_fd (record { io = t.io; conn = d })
    changed-IsEcho q d e = elim (Bool-cases (p == q)) [
      | inl hit ↦
          let same : t.conn ≡ d = ground (arith, heap-changed q) in
          subst (λ x. IsEcho x.conn_fd (record { io = t.io; conn = x })) same
            (subst (λ k. IsEcho k t) (sym done.own) done)
      | inr miss ↦
          let old : s.manager.heap q ≡ some d = ground (arith, heap-changed q) in
          IsEcho-same d.conn_fd d s.io t.io (frame.others d.conn_fd (other_fd q d miss old))
            (h.echo q d old)
    ]

    changed-quiet :
        (k : ℤ)
        → (opened t.io.world k → ⊥)
        → (received k t.io.trace ≡ []) × (sent k t.io.trace ≡ [])
    changed-quiet k closed =
        let same = frame.others k not_own in
        let q = h.quiet k (λ o. closed (frame.still_open k o)) in
        (same.same_received ∙ q.0, same.same_sent ∙ q.1)
      where
        not_own : k ≢ c.conn_fd
        not_own e = closed (
            frame.still_open k
              (subst (opened s.io.world) (sym e) (h.listed c.conn_fd p (h.managed.known p c live))))

    changed-Exists : (q : ℕ) → Exists (s.manager.heap q) → Exists (changed.heap q)
    changed-Exists q a = ground (arith, heap-changed q)

    own-Exists : Exists (changed.heap p)
    own-Exists = ground (arith, heap-changed p)

    changed-Alive : (d : EpollData) → watched t.io.world d → Alive changed d
    changed-Alive d o = elim (frame.watch d o) [
      | inl old ↦ Alive-grow s.manager changed changed-Exists d (h.alive d old)
      | inr own ↦ subst (Alive changed) own own-Exists
    ]

    changed-IsSound : Sound (record { io = t.io; manager = changed })
    changed-IsSound = record {
      managed = assign-IsValid p c t.conn s.manager live done.own h.managed;
      echo = changed-IsEcho;
      listed = λ k q e. frame.still_open k (h.listed k q (rw (data-changed k) at e));
      quiet = changed-quiet;
      alive = changed-Alive;
      kept = λ q a. changed-Exists q (h.kept q a);
    }

  -- `handleConnectionEvent` on a live connection ends in a sound state, or stores or logs a byte
  -- outside the connection's buffer.
  pub handle-IsSound :
      (fuel p : ℕ) (c : ConnectionData) (s : Shared W)
      → buffer_size < fuel
      → Sound s
      → s.manager.heap p ≡ some c
      → Ends OnlyBounds Sound (handle os w fuel p c s)
  unfolding handle
  handle-IsSound fuel p c s m h live =
      Ends-bind OnlyBounds
        (λ t.
          IsEcho c.conn_fd t
          × (Bounds.IsValid t.conn
              × Frame os opened watched waiting limit kernel c.conn_fd p s.io t.io))
        Sound run _
        (Ends-and OnlyBounds (IsEcho c.conn_fd) _ run
          (handle_connection_event-IsEcho os w.epoll_fd p c.conn_fd laws fuel start m echo)
          (handle_connection_event-Frame os opened watched waiting limit kernel w.epoll_fd c.conn_fd
            p s.io laws fuel start m refl echo.valid refl))
        (λ t (e, f). changed-IsSound s p c h live t e f.1)
    where
      start : Handling W
      start = record { io = s.io; conn = c }

      run : Outcome (Handling W)
      run = handle_connection_event os w.epoll_fd p fuel start

      echo : IsEcho c.conn_fd start
      echo = h.echo p c live
