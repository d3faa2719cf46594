-- ===== src/Descriptor.antt =====
-- The class `concurrent_servers::file_descriptor`, which the servers use and the repository does not
-- define: an object that holds a descriptor. Its objects and methods are a parameter.
pub mod Finite
pub mod Closes
pub mod Relays
use linux_tcp_servers.Common.{ℤ, Bool}
use linux_tcp_servers.Os.{Io}

pub record FdClass (W Fd : Type 0) : Type 0 where
  -- `file_descriptor x{}` and `file_descriptor x{fd}`.
  pub empty : Fd
  pub holding : ℤ → Fd
  pub get_fd : Fd → ℤ
  pub set_fd : ℤ → Fd → Io W → (Bool × Fd) × Io W
  pub close_fd : Fd → Io W → Fd × Io W
  -- What the end of the object's scope does.
  pub destroy : Fd → Io W → Io W
