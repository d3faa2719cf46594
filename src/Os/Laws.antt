-- ===== src/Os/Laws.antt =====
-- What the manual pages promise of the calls, as far as the servers rely on it.
use linux_tcp_servers.Common.{ℕ, ℤ, ◌≤◌, List, length}
use linux_tcp_servers.Os.{Os, Reply, returned, failed}

-- read(2) returns at most as many bytes as were asked for.
abbrev pub ReadFits : ℕ → Reply (List ℕ) → Type 0
ReadFits count (returned bytes) = length bytes ≤ count
ReadFits count (failed e) = Unit

-- write(2) takes at most the bytes that it is given.
abbrev pub WriteFits : List ℕ → Reply ℕ → Type 0
WriteFits bytes (returned n) = n ≤ length bytes
WriteFits bytes (failed e) = Unit

pub record Transfers {W : Type 0} (os : Os W) : Type 0 where
  pub read_fits : (w : W) (sfd : ℤ) (count : ℕ) → ReadFits count (os.read w sfd count).0
  pub write_fits : (w : W) (sfd : ℤ) (bytes : List ℕ) → WriteFits bytes (os.write w sfd bytes).0
