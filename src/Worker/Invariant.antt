-- ===== src/Worker/Invariant.antt =====
-- What is true of a worker's process at every point of its loop.
use linux_tcp_servers.Common.{ℕ, ℤ, ◌≡◌, ◌∙◌, [], Option, none, some}
use linux_tcp_servers.Os.{Os, Io, EpollData, ptr, fd}
use linux_tcp_servers.Os.Kernel.{Stays}
use linux_tcp_servers.Connection.{ConnectionData}
use linux_tcp_servers.Connection.Echo.{IsEcho}
use linux_tcp_servers.Connection.Frame.{SameHistory}
use linux_tcp_servers.Connection.History.{received, sent}
use linux_tcp_servers.Manager.{Manager}
use linux_tcp_servers.Manager.Invariant
use linux_tcp_servers.Worker.{Shared}

abbrev pub Exists : Option ConnectionData → Type 0
Exists none = ⊥
Exists (some c) = Unit

-- The data of an event is a pointer to a live object.
abbrev pub Alive : Manager → EpollData → Type 0
Alive m (ptr none) = ⊥
Alive m (ptr (some p)) = Exists (m.heap p)
Alive m (fd n) = ⊥

pub Alive-grow :
    (m m' : Manager)
    → ((p : ℕ) → Exists (m.heap p) → Exists (m'.heap p))
    → (d : EpollData) → Alive m d
    → Alive m' d
Alive-grow m m' f (ptr none) a = a
Alive-grow m m' f (ptr (some p)) a = f p a
Alive-grow m m' f (fd n) a = a

-- A connection's state agrees with a history that is the same.
pub IsEcho-same :
    {W : Type 0} (k : ℤ) (c : ConnectionData) (io io' : Io W)
    → SameHistory k io'.trace io.trace
    → IsEcho k (record { io = io; conn = c })
    → IsEcho k (record { io = io'; conn = c })
IsEcho-same k c io io' same h = record {
  own = h.own;
  valid = h.valid;
  came = same.same_received ∙ h.came;
  went = same.same_sent ∙ h.went;
}

module _ {W : Type 0} (os : Os W) (opened : W → ℤ → Type 0) (watched : W → EpollData → Type 0)
    (waiting : W → ℕ) (limit : ℕ) (held : ℕ → Type 0) where
  -- The manager is well formed; each live connection has its indices in order and has echoed a prefix
  -- of what it received; each key of the map is an open descriptor; a descriptor that is not open
  -- has no history; and epoll watches live objects only. `held` are pointers that must not be freed.
  pub record IsSound (s : Shared W) : Type 0 where
    pub managed : Invariant.IsValid s.manager
    pub echo :
        (p : ℕ) (c : ConnectionData)
        → s.manager.heap p ≡ some c
        → IsEcho c.conn_fd (record { io = s.io; conn = c })
    pub listed : (k : ℤ) (p : ℕ) → s.manager.data_map k ≡ some p → opened s.io.world k
    pub quiet :
        (k : ℤ)
        → (opened s.io.world k → ⊥)
        → (received k s.io.trace ≡ []) × (sent k s.io.trace ≡ [])
    pub alive : (d : EpollData) → watched s.io.world d → Alive s.manager d
    pub kept : (p : ℕ) → held p → Exists (s.manager.heap p)

  -- A call that is in no history, and after which nothing is closed and no more is watched.
  pub IsSound-Stays :
      (s : Shared W) (io : Io W)
      → ((j : ℤ) → SameHistory j io.trace s.io.trace)
      → Stays os opened watched waiting limit s.io.world io.world
      → IsSound s
      → IsSound (record s { io = io })
  IsSound-Stays s io same stays h = record {
    managed = h.managed;
    echo = λ p c e. IsEcho-same c.conn_fd c s.io io (same c.conn_fd) (h.echo p c e);
    listed = λ k p e. stays.still_open k (h.listed k p e);
    quiet = λ k closed.
        let q = h.quiet k (λ o. closed (stays.still_open k o)) in
        ((same k).same_received ∙ q.0, (same k).same_sent ∙ q.1);
    alive = λ d o. h.alive d (stays.no_more d o);
    kept = h.kept;
  }
