-- ===== src/Descriptor/Finite.antt =====
-- What the servers' loops rely on to end.
use linux_tcp_servers.Common.{ℕ, ℤ, negsuc, ◌≤◌, ◌<◌, ◌≡◌, Bool, false, List, [], ◌∷◌}
use linux_tcp_servers.Os.{Os, Io, Reply, returned, failed}
use linux_tcp_servers.Descriptor.{FdClass}

-- What the clients have sent, and who waits, is finite: each accept and each `read` that brings
-- something takes from it, and no other call of the server adds to it.
module _ {W : Type 0} (amount : W → ℕ) where
  abbrev pub AcceptTakes : W → Reply ℕ × W → Type 0
  AcceptTakes w (returned n, v) = amount v < amount w
  AcceptTakes w (failed e, v) = amount v ≤ amount w

  abbrev pub ReadTakes : W → Reply (List ℕ) × W → Type 0
  ReadTakes w (returned [], v) = amount v ≤ amount w
  ReadTakes w (returned (b ∷ bytes), v) = amount v < amount w
  ReadTakes w (failed e, v) = amount v ≤ amount w

pub record Finite {W Fd : Type 0} (os : Os W) (cls : FdClass W Fd) (amount : W → ℕ) : Type 0 where
  pub accept_takes : (w : W) (sfd : ℤ) (b : Bool) → AcceptTakes amount w (os.accept w sfd b)
  pub read_takes : (w : W) (sfd : ℤ) (count : ℕ) → ReadTakes amount w (os.read w sfd count)
  pub write_adds_none :
      (w : W) (sfd : ℤ) (bytes : List ℕ) → amount (os.write w sfd bytes).1 ≤ amount w
  pub set_adds_none :
      (n : ℤ) (f : Fd) (io : Io W) → amount (cls.set_fd n f io).1.world ≤ amount io.world
  pub close_adds_none : (f : Fd) (io : Io W) → amount (cls.close_fd f io).1.world ≤ amount io.world
  pub destroy_adds_none : (f : Fd) (io : Io W) → amount (cls.destroy f io).world ≤ amount io.world
  -- `set_fd(-1)` is false.
  pub set_tells : (n : ℕ) (f : Fd) (io : Io W) → (cls.set_fd (negsuc n) f io).0.0 ≡ false
