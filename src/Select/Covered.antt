-- ===== src/Select/Covered.antt =====
-- What the `select` server keeps, and what its objects keep of it.
use linux_tcp_servers.Common.{ℕ, ℤ, ◌<◌, ◌≡◌, arith}
use linux_tcp_servers.Os.{Os, Io}
use linux_tcp_servers.Descriptor.{FdClass}
use linux_tcp_servers.Descriptor.Closes.{Guard}
use linux_tcp_servers.Descriptor.Relays.{Relays, OnlyCloses-Relays}
use linux_tcp_servers.Select.{Select}
use linux_tcp_servers.Descriptor.Finite.{Finite}
use linux_tcp_servers.Select.Ends.{IsCovered}

module _ {W Fd : Type 0} (os : Os W) (cls : FdClass W Fd) (server_sfd : Fd) (amount : W → ℕ)
    (laws : Finite os cls amount) (guard : Guard cls)
    (held : (n : ℤ) → cls.get_fd (cls.holding n) ≡ n) (fuel : ℕ) where
  -- The fuel is enough for what is left, and nothing has gone out but what came in.
  abbrev pub IsRelaying : Io W → Type 0
  IsRelaying io = (amount io.world < fuel) × Relays io.trace

  abbrev pub IsServable : Select W → Type 0
  IsServable s = IsCovered s × IsRelaying s.io

  pub destroyed : (f : Fd) (io : Io W) → IsRelaying io → IsRelaying (cls.destroy f io)
  destroyed f io h = (
    omega (arith, h.0, laws.destroy_adds_none f io),
    OnlyCloses-Relays (guard.destroy_closes f io) h.1,
  )

  pub closed : (f : Fd) (io : Io W) → IsRelaying io → IsRelaying (cls.close_fd f io).1
  closed f io h = (
    omega (arith, h.0, laws.close_adds_none f io),
    OnlyCloses-Relays (guard.close_closes f io) h.1,
  )

  pub taken : (n : ℤ) (f : Fd) (io : Io W) → IsRelaying io → IsRelaying (cls.set_fd n f io).1
  taken n f io h = (
    omega (arith, h.0, laws.set_adds_none n f io),
    OnlyCloses-Relays (guard.set_closes n f io) h.1,
  )
