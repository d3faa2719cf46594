-- ===== src/Manager/Invariant.antt =====
-- How the manager's map and its heap agree: each entry owns one live object, which knows its key, and
-- each live object is owned.
use linux_tcp_servers.Common.{
  ℕ, ℤ, ◌≤◌, ◌≡◌, refl, Option, none, some, Option-cases, inl, inr, arith, ==ℤ_iff,
}
use linux_tcp_servers.Connection.{ConnectionData, connection}
use linux_tcp_servers.Manager.{Manager, no_connections, insert, remove, assign}

-- There is an object, and it is that of descriptor `k`.
abbrev pub Holds : ℤ → Option ConnectionData → Type 0
Holds k none = ⊥
Holds k (some c) = c.conn_fd ≡ k

pub record IsValid (m : Manager) : Type 0 where
  pub owned : (k : ℤ) (p : ℕ) → m.data_map k ≡ some p → Holds k (m.heap p)
  pub known : (p : ℕ) (c : ConnectionData) → m.heap p ≡ some c → m.data_map c.conn_fd ≡ some p
  pub fresh : (p : ℕ) → m.next ≤ p → m.heap p ≡ none

pub no_connections-IsValid : IsValid no_connections
unfolding no_connections
no_connections-IsValid = record { owned = λ k p e. cc; known = λ p c e. cc; fresh = λ p h. refl }

-- `insert` keeps the map and the heap in agreement.
pub insert-IsValid : (k : ℤ) (m : Manager) → IsValid m → IsValid (insert k m).1
unfolding insert connection
insert-IsValid k m v = elim (Option-cases (m.data_map k)) [
  | inr (p, e) ↦ rw (e, insert) v
  | inl e ↦
      rw (e, insert)
        (record {
          owned = λ j p h. ground (arith, ==ℤ_iff k j, v.owned j p, v.fresh m.next);
          known = λ p c h. ground (arith, ==ℤ_iff k c.conn_fd, v.known p c);
          fresh = λ p h. ground (arith, v.fresh p);
        })
]

-- So does `remove`.
pub remove-IsValid : (k : ℤ) (m : Manager) → IsValid m → IsValid (remove k m)
unfolding remove
remove-IsValid k m v = elim (Option-cases (m.data_map k)) [
  | inl e ↦ rw (e, remove) v
  | inr (p, e) ↦
      rw (e, remove)
        (record {
          owned = λ j q h. ground (arith, ==ℤ_iff k j, v.owned j q, v.owned k p e);
          known = λ q c h. ground (arith, ==ℤ_iff k c.conn_fd, v.known q c);
          fresh = λ q h. ground (arith, v.fresh q);
        })
]

-- So does a write through a live pointer that leaves the object's descriptor alone.
pub assign-IsValid :
    (p : ℕ) (old c : ConnectionData) (m : Manager)
    → m.heap p ≡ some old
    → c.conn_fd ≡ old.conn_fd
    → IsValid m
    → IsValid (assign p c m)
unfolding assign
assign-IsValid p old c m live same v = record {
  owned = λ j q h. ground (arith, v.owned j q h);
  known = λ q d h. ground (arith, v.known q d, v.known p old live);
  fresh = λ q h. ground (arith, v.fresh q h);
}
