-- ===== src/Worker/Dispatch.antt =====
-- The events of a worker, one by one, and `closeConnection`.
use linux_tcp_servers.Common.{
  ℕ, ℤ, ◌<◌, ◌≡◌, refl, ◌⊎◌, inl, inr, Bool, true, false, ◌||◌, Option, none, some, arith, Outcome,
  undefined, dangling, out_of_bounds, Fault, Ends, Ends-map, is_negative, if_rule, ◌==ℤ◌, ◌>>=◌,
}
use linux_tcp_servers.Os.{Os, EpollData, EpollEvent, ptr, fd}
use linux_tcp_servers.Os.Flags.{has, epollerr, epollrdhup, epollhup}
use linux_tcp_servers.Os.Laws.{Transfers}
use linux_tcp_servers.Os.Kernel.{Kernel}
use linux_tcp_servers.Connection.{ConnectionData, buffer_size}
use linux_tcp_servers.Connection.Bounds.{OnlyBounds}
use linux_tcp_servers.Manager.Refinement.{remove_frees}
use linux_tcp_servers.Manager.Invariant
use linux_tcp_servers.Worker.{
  Worker, Shared, deref_live, event_on, pointer_of, close_connection, connection_event, dispatch,
}
use linux_tcp_servers.Worker.Invariant.{IsSound, Alive, Exists}
use linux_tcp_servers.Worker.Accept.{HasAccepted, accept_connections-IsSound}
use linux_tcp_servers.Worker.Handle.{handle-IsSound}

-- The flags upon which the connection is closed.
abbrev pub closes : ℕ → Bool
closes events = has events epollerr || has events epollrdhup

-- What may go wrong at an event: a byte stored or logged outside the buffer, or, if the connection
-- is closed, the use of the object that has just been freed.
abbrev pub Faults : ℕ → Fault → Type 0
Faults events e = (e ≡ out_of_bounds) ⊎ ((e ≡ dangling) × (closes events ≡ true))

module _ {W : Type 0} (os : Os W) (w : Worker) where
  -- `closeConnection` reads its reference `conn_fd` after `remove` has freed the object that holds it:
  -- closing a live connection of a valid manager, with a descriptor that is not negative, is undefined
  -- behaviour.
  pub close_connection_dangles :
      (p : ℕ) (c : ConnectionData) (s : Shared W)
      → Invariant.IsValid s.manager
      → s.manager.heap p ≡ some c
      → is_negative c.conn_fd ≡ false
      → close_connection os w p c s ≡ undefined dangling
  unfolding close_connection
  close_connection_dangles p c s v live open_fd =
      ground (arith, remove_frees c.conn_fd s.manager p (v.known p c live))

module _ {W : Type 0} (os : Os W) (opened : W → ℤ → Type 0) (watched : W → EpollData → Type 0)
    (waiting : W → ℕ) (limit : ℕ) (held : ℕ → Type 0)
    (kernel : Kernel os opened watched waiting limit) (laws : Transfers os) (w : Worker) where
  abbrev Sound : Shared W → Type 0
  Sound = IsSound os opened watched waiting limit held

  close_connection-Ends :
      (events p : ℕ) (c : ConnectionData) (s : Shared W)
      → Sound s
      → s.manager.heap p ≡ some c
      → closes events ≡ true
      → Ends (Faults events) Sound (close_connection os w p c s)
  unfolding close_connection
  close_connection-Ends events p c s h live closing =
      if_rule (Ends (Faults events) Sound) (is_negative c.conn_fd) (λ closed. h)
        (λ open_fd.
          rw (remove_frees c.conn_fd s.manager p (h.managed.known p c live)) (inr (refl, closing)))

  -- An event of a live connection.
  connection_event-Ends :
      (fuel events p : ℕ) (c : ConnectionData) (s : Shared W)
      → buffer_size < fuel
      → Sound s
      → s.manager.heap p ≡ some c
      → Ends (Faults events) Sound (connection_event os w fuel events p c s)
  unfolding connection_event
  connection_event-Ends fuel events p c s m h live =
      if_rule Goal (has events epollerr)
        (λ error. close_connection-Ends events p c s h live (rw error refl))
        (λ no_error.
          if_rule Goal (has events epollrdhup)
            (λ hung_up. close_connection-Ends events p c s h live (ground arith))
            (λ open_still.
              if_rule Goal (has events epollhup) (λ hup. h)
                (λ normal.
                  Ends-map OnlyBounds Sound (Faults events) Sound _ (λ e f. inl f) (λ t k. k)
                    (handle-IsSound os opened watched waiting limit held kernel laws w fuel p c s m
                      h live))))
    where
      Goal : Outcome (Shared W) → Type 0
      Goal = Ends (Faults events) Sound

  module _ (fuel : ℕ) (buffers : buffer_size < fuel) (queues : limit < fuel) where
    event_on-Ends :
        (events p : ℕ) (c : ConnectionData) (s : Shared W)
        → Sound s
        → s.manager.heap p ≡ some c
        → Ends (Faults events) Sound (event_on os w fuel events s (p, c))
    event_on-Ends events p c s h live =
        if_rule (Ends (Faults events) Sound) (c.conn_fd ==ℤ w.server_sfd)
          (λ server.
            Ends-map (λ e. ⊥) (HasAccepted os opened watched waiting limit held kernel w)
              (Faults events) Sound _ (λ e f. absurd f) (λ t k. k.sound)
              (accept_connections-IsSound os opened watched waiting limit held kernel w fuel s
                queues h))
          (λ client. connection_event-Ends fuel events p c s buffers h live)

    live_object :
        (events p : ℕ) (o : Option ConnectionData) (s : Shared W)
        → s.manager.heap p ≡ o
        → Exists o
        → Sound s
        → Ends (Faults events) Sound (deref_live p o >>= event_on os w fuel events s)
    live_object events p none s e a h = absurd a
    live_object events p (some c) s e a h = event_on-Ends events p c s h e

    at_data :
        (events : ℕ) (d : EpollData) (s : Shared W)
        → Alive s.manager d
        → Sound s
        → Ends (Faults events) Sound (pointer_of s.manager d >>= event_on os w fuel events s)
    at_data events (ptr none) s a h = absurd a
    at_data events (ptr (some p)) s a h = live_object events p (s.manager.heap p) s refl a h
    at_data events (fd n) s a h = absurd a

    -- The loop's body, from a sound state and at an event whose pointer is live, ends in a sound
    -- state: null and freed pointers are never followed, no exception is thrown and no loop runs
    -- on. The one undefined behaviour left is a byte stored or logged behind a full buffer or,
    -- where the event carries EPOLLERR or EPOLLRDHUP, the use of the freed connection in
    -- `closeConnection`.
    pub dispatch-IsSound :
        (e : EpollEvent) (s : Shared W)
        → Sound s
        → Alive s.manager e.data_of
        → Ends (Faults e.events) Sound (dispatch os w fuel e s)
    unfolding dispatch
    dispatch-IsSound e s h a = at_data e.events e.data_of s a h
