-- ===== src/Clients/PingPong/Sockets.antt =====
-- The sockets of the threads of the multi client.
use linux_tcp_servers.Common.{
  ℕ, ℤ, pos, ◌≡◌, ◌≢◌, sym, ◌∙◌, ap, ◌⊎◌, inl, inr, List, Option, none, some,
}
use linux_tcp_servers.Os.{Os, Reply, returned, failed}
use linux_tcp_servers.Arguments.{get_elem?}
use linux_tcp_servers.Clients.PingPong.{
  PingThread, opening, connecting, writing, closing, exiting, left, set_elem,
}
use linux_tcp_servers.Clients.PingPong.Elems.{set_elem_cases}

-- What Linux promises of sockets, over a view of which descriptors are open: a new one was not
-- open, and `close` closes its own descriptor alone.
module _ {W : Type 0} (os : Os W) (is_open : W → ℤ → Type 0) where
  abbrev pub NewSocket : W → Reply ℕ × W → Type 0
  NewSocket w (returned n, v) =
      ((is_open w (pos n) → ⊥) × is_open v (pos n)) × ((k : ℤ) → is_open w k → is_open v k)
  NewSocket w (failed e, v) = (k : ℤ) → is_open w k → is_open v k

  pub record SocketLaws : Type 0 where
    pub new_socket : (w : W) (f t p : ℕ) → NewSocket w (os.socket w f t p)
    pub connect_keeps :
        (w : W) (sfd : ℤ) (host port : ℕ) (k : ℤ)
        → is_open w k
        → is_open (os.connect w sfd host port).1 k
    pub write_keeps :
        (w : W) (sfd : ℤ) (bytes : List ℕ) (k : ℤ)
        → is_open w k
        → is_open (os.write w sfd bytes).1 k
    pub close_keeps : (w : W) (sfd k : ℤ) → k ≢ sfd → is_open w k → is_open (os.close w sfd) k

-- The socket that the next call of a thread uses.
unfoldable pub socket_of : PingThread → Option ℕ
socket_of (opening i) = none
socket_of (connecting i host sfd) = some sfd
socket_of (writing i sfd j) = some sfd
socket_of (closing i sfd) = some sfd
socket_of (exiting code) = none
socket_of left = none

module _ {W : Type 0} (is_open : W → ℤ → Type 0) where
  -- The sockets in use are open, and each is used by one thread.
  pub record OwnSockets (w : W) (threads : List PingThread) : Type 0 where
    pub in_use_open :
        (k : ℕ) (thread : PingThread) (n : ℕ)
        → get_elem? threads k ≡ some thread
        → socket_of thread ≡ some n
        → is_open w (pos n)
    pub one_user :
        (j k : ℕ) (x y : PingThread) (n : ℕ)
        → get_elem? threads j ≡ some x
        → get_elem? threads k ≡ some y
        → socket_of x ≡ some n
        → socket_of y ≡ some n
        → j ≡ k

  -- What a call of a thread must keep: its socket is open afterwards, and was its own or not open;
  -- and the sockets of others stay open.
  pub record Moves (w v : W) (thread next : PingThread) : Type 0 where
    pub next_open : (n : ℕ) → socket_of next ≡ some n → is_open v (pos n)
    pub own_or_new :
        (n : ℕ) → socket_of next ≡ some n → (socket_of thread ≡ some n) ⊎ (is_open w (pos n) → ⊥)
    pub others_stay : (n : ℕ) → is_open w (pos n) → (socket_of thread ≡ some n) ⊎ is_open v (pos n)

  pub next-OwnSockets :
      (w v : W) (threads : List PingThread) (k : ℕ) (thread next : PingThread)
      → get_elem? threads k ≡ some thread
      → Moves w v thread next
      → OwnSockets w threads
      → OwnSockets v (set_elem threads k next)
  next-OwnSockets w v threads k thread next at m h = record {
    in_use_open = λ j x n e u. elim (set_elem_cases threads k j next x e) [
      | inl same ↦ m.next_open n (ap socket_of same.1 ∙ u)
      | inr other ↦ elim (m.others_stay n (h.in_use_open j x n other.1 u)) [
        | inl mine ↦ absurd (other.0 (h.one_user k j thread x n at other.1 mine u))
        | inr kept ↦ kept
      ]
    ];
    one_user = λ j l x y n e f u v. elim (set_elem_cases threads k j next x e) [
      | inl same ↦ elim (set_elem_cases threads k l next y f) [
        | inl same2 ↦ sym same.0 ∙ same2.0
        | inr other ↦ absurd (other.0 (against l y n other.1 (ap socket_of same.1 ∙ u) v))
      ]
      | inr other ↦ elim (set_elem_cases threads k l next y f) [
        | inl same ↦ absurd (other.0 (against j x n other.1 (ap socket_of same.1 ∙ v) u))
        | inr other2 ↦ h.one_user j l x y n other.1 other2.1 u v
      ]
    ];
  }
    where
      against :
          (l : ℕ) (y : PingThread) (n : ℕ)
          → get_elem? threads l ≡ some y
          → socket_of next ≡ some n
          → socket_of y ≡ some n
          → k ≡ l
      against l y n f u v = elim (m.own_or_new n u) [
        | inl mine ↦ h.one_user k l thread y n at f mine v
        | inr fresh ↦ absurd (fresh (h.in_use_open l y n f v))
      ]
