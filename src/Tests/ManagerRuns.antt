-- ===== src/Tests/ManagerRuns.antt =====
-- A manager with one connection.
use linux_tcp_servers.Common.{pos, ◌≡◌, none, if◌then◌else◌}
use linux_tcp_servers.Connection.{connection}
use linux_tcp_servers.Manager.{Manager, no_connections, get, insert, remove}
use linux_tcp_servers.Manager.Invariant.{IsValid, no_connections-IsValid, insert-IsValid}
use linux_tcp_servers.Manager.Refinement.{
  contents, add_key, delete_key, Inserted, is_entry, insert_refines, remove_refines,
}

abbrev one : Manager
one = (insert (pos 3) no_connections).1

one-IsValid : IsValid one
one-IsValid = insert-IsValid (pos 3) no_connections no_connections-IsValid

insert_refines_example :
    (contents (insert (pos 5) one).1
      ≡ add_key (pos 5) (connection (pos 5)) (contents one (pos 5)) (contents one))
    × Inserted (pos 5) one (insert (pos 5) one)
insert_refines_example = insert_refines (pos 5) one one-IsValid

remove_refines_example :
    (contents (remove (pos 3) one) ≡ delete_key (pos 3) (contents one))
    × ((remove (pos 3) one).heap 0 ≡ (if is_entry (get (pos 3) one) 0 then none else one.heap 0))
remove_refines_example = remove_refines (pos 3) one 0 one-IsValid
