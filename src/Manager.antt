-- ===== src/Manager.antt =====
-- src/servers/multi_worker_nonblocking_io_multiplexing_server.h: `ConnectionDataManager`, the map from
-- descriptors to the data of their connections that all workers share.
-- A `shared_ptr` in the map is the address of an object on the heap; the map holds the only reference
-- that counts, so `erase` frees the object. Workers keep raw pointers, in the events of epoll.
-- Each method holds the mutex throughout, so calls of several workers are calls in some order.
-- Addresses are handed out in order and never again: a freed object is not overwritten by a new one.
pub mod Invariant
pub mod Refinement
pub mod New
use linux_tcp_servers.Common.{
  ℕ, ℤ, suc, Option, none, some, Bool, ◌==◌, ◌==ℤ◌, if◌then◌else◌, update, store,
}
use linux_tcp_servers.Connection.{ConnectionData, connection}

pub record Manager : Type 0 where
  pub data_map : ℤ → Option ℕ
  pub heap : ℕ → Option ConnectionData
  pub next : ℕ

unfoldable pub no_connections : Manager
no_connections = record { data_map = λ k. none; heap = λ p. none; next = 0 }

-- The result of the methods is a pointer, or null.
unfoldable pub get : ℤ → Manager → Option ℕ
get conn_fd m = m.data_map conn_fd

unfoldable pub insert : ℤ → Manager → Option ℕ × Manager
insert conn_fd m = elim (m.data_map conn_fd) [
  | some p ↦ (none, m)
  | none ↦ (
    some m.next,
    record {
      data_map = update m.data_map conn_fd (some m.next);
      heap = store m.heap m.next (some (connection conn_fd));
      next = suc m.next;
    },
  )
]

unfoldable pub remove : ℤ → Manager → Manager
remove conn_fd m = elim (m.data_map conn_fd) [
  | none ↦ m
  | some p ↦ record m { data_map = update m.data_map conn_fd none; heap = store m.heap p none }
]

-- The object behind a pointer is given a new value.
unfoldable pub assign : ℕ → ConnectionData → Manager → Manager
assign p c m = record m { heap = store m.heap p (some c) }
