-- ===== src/Edge/Watch.antt =====
-- What an epoll loop keeps of the descriptors that epoll is given.
use Prim.Native.String.{String}
use linux_tcp_servers.Common.{ℕ, ℤ, ◌≤◌, ◌<◌, ◌≡◌, sym, ◌∙◌, ap, [], ◌∷◌, ◌++◌, arith, Result}
use linux_tcp_servers.Os.{Os, Io}
use linux_tcp_servers.Descriptor.{FdClass}
use linux_tcp_servers.Descriptor.Finite.{Finite}
use linux_tcp_servers.Descriptor.Closes.{Guard, OnlyCloses}
use linux_tcp_servers.Edge.Fds.{
  Settles, Misses, accepted_fds, added_fds, OnlyCloses-accepted, OnlyCloses-added, Holds,
  EpollQuiet,
}

module _ {W Fd : Type 0} (os : Os W) (cls : FdClass W Fd) (amount : W → ℕ)
    (finite : Finite os cls amount) (guard : Guard cls) (holds : Holds cls)
    (quiet : EpollQuiet os amount) (fuel : ℕ) (server : ℤ) where
  -- epoll watches the listening socket and every client that was accepted, in the order of
  -- accepting; and the fuel is enough for what is to come.
  pub record IsWatching (io : Io W) : Type 0 where
    pub all_added : added_fds io.trace ≡ accepted_fds io.trace ++ (server ∷ [])
    pub enough : amount io.world < fuel

  pub closed-IsWatching :
      (io t : Io W)
      → OnlyCloses io.trace t.trace
      → amount t.world ≤ amount io.world
      → IsWatching io
      → IsWatching t
  closed-IsWatching io t c low h = record {
    all_added =
        OnlyCloses-added c
        ∙ (h.all_added ∙ ap (λ l. l ++ (server ∷ [])) (sym (OnlyCloses-accepted c)));
    enough = omega (arith, h.enough);
  }

  abbrev pub Failing : String × Io W → Type 0
  Failing x = Misses server x.1.trace

  abbrev pub Settled : Result (String × Io W) (Io W) → Type 0
  Settled = Settles IsWatching Failing

  pub destroyed-IsWatching : (f : Fd) (io : Io W) → IsWatching io → IsWatching (cls.destroy f io)
  destroyed-IsWatching f io h =
      closed-IsWatching io (cls.destroy f io) (guard.destroy_closes f io)
        (finite.destroy_adds_none f io) h
