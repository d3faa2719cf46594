-- ===== src/Fcntl.antt =====
-- src/utilities/file_descriptor.h: `set_nonblocking` and `is_nonblocking`.
pub mod Flags
pub mod Roundtrip
use linux_tcp_servers.Common.{ℕ, ℤ, bit_or, Bool, true, false}
use linux_tcp_servers.Os.{Os, Io, Reply, returned, failed, sys_get_flags, sys_set_flags}
use linux_tcp_servers.Os.Flags.{has}

abbrev pub o_nonblock : ℕ
o_nonblock = 0x800

module _ {W : Type 0} (os : Os W) where
  abbrev pub flags_set : Reply (Unit {0}) × Io W → Bool × Io W
  flags_set (returned u, io) = (true, io)
  flags_set (failed e, io) = (false, io)

  abbrev pub flags_got : ℤ → Reply ℕ × Io W → Bool × Io W
  flags_got n (failed e, io) = (false, io)
  flags_got n (returned flags, io) = flags_set (sys_set_flags os n (bit_or flags o_nonblock) io)

  unfoldable pub set_nonblocking : ℤ → Io W → Bool × Io W
  set_nonblocking n io = flags_got n (sys_get_flags os n io)

  -- After a failure `flags` is -1, which has every bit.
  abbrev pub nonblock_bit : Reply ℕ × Io W → Bool × Io W
  nonblock_bit (failed e, io) = (true, io)
  nonblock_bit (returned flags, io) = (has flags o_nonblock, io)

  unfoldable pub is_nonblocking : ℤ → Io W → Bool × Io W
  is_nonblocking n io = nonblock_bit (sys_get_flags os n io)
