-- ===== src/Manager/New.antt =====
-- `insert` of a key that is not bound, field by field.
use linux_tcp_servers.Common.{ℕ, ℤ, ◌≡◌, none, some, ◌==◌, ◌==ℤ◌, if◌then◌else◌}
use linux_tcp_servers.Connection.{connection}
use linux_tcp_servers.Manager.{Manager, insert}

module _ (k : ℤ) (m : Manager) (new : m.data_map k ≡ none) where
  pub insert_pointer : (insert k m).0 ≡ some m.next
  unfolding insert
  insert_pointer = rw (new, insert)

  pub insert_data :
      (j : ℤ) → (insert k m).1.data_map j ≡ (if k ==ℤ j then some m.next else m.data_map j)
  unfolding insert
  insert_data j = rw (new, insert)

  pub insert_heap :
      (p : ℕ) → (insert k m).1.heap p ≡ (if m.next == p then some (connection k) else m.heap p)
  unfolding insert
  insert_heap p = rw (new, insert)
