-- ===== src/Fcntl/Roundtrip.antt =====
-- A descriptor that `set_nonblocking` has made non-blocking, asked by `is_nonblocking`.
use linux_tcp_servers.Common.{ℕ, ℤ, ◌∷◌, ◌≡◌, ◌≢◌, refl, ap, ◌∙◌, bit_or, not, ◌==◌, true, false}
use linux_tcp_servers.Os.{
  Os, Io, Reply, returned, failed, errno_after, get_flags_call, set_flags_call,
}
use linux_tcp_servers.Os.Flags.{has}
use linux_tcp_servers.Fcntl.{
  o_nonblock, flags_set, flags_got, nonblock_bit, set_nonblocking, is_nonblocking,
}
use linux_tcp_servers.Fcntl.Flags.{bit_and-bit_or}

abbrev pub SameNonblock : ℕ → Reply ℕ → Type 0
SameNonblock flags (returned now) = has now o_nonblock ≡ has flags o_nonblock
SameNonblock flags (failed e) = Unit

abbrev pub AfterSet : {W : Type 0} → Os W → ℤ → ℕ → Reply (Unit {0}) × W → Type 0
AfterSet os n flags (returned u, w) = SameNonblock flags (os.get_flags w n).0
AfterSet os n flags (failed e, w) = Unit

-- F_GETFL, after F_SETFL has succeeded, finds O_NONBLOCK as it was given.
abbrev pub FlagsLaw : {W : Type 0} → Os W → Type 0
FlagsLaw {W} os = (w : W) (n : ℤ) (flags : ℕ) → AfterSet os n flags (os.set_flags w n flags)

has_after_or : (flags : ℕ) → has (bit_or flags o_nonblock) o_nonblock ≡ true
has_after_or flags = ap (λ k. not (k == 0)) (bit_and-bit_or flags o_nonblock)

false_is_not_true : false ≢ true
false_is_not_true = cc

bit_of :
    {W : Type 0} (os : Os W) (flags : ℕ) (x : Reply ℕ × Io W)
    → SameNonblock flags x.0
    → has flags o_nonblock ≡ true
    → (nonblock_bit os x).0 ≡ true
bit_of os flags (returned now, t) same e = same ∙ e
bit_of os flags (failed x, t) same e = refl

module _ {W : Type 0} (os : Os W) (law : FlagsLaw os) (n : ℤ) where
  set_then_asked :
      (flags : ℕ) (r : Reply (Unit {0})) (t : Io W)
      → AfterSet os n flags (r, t.world)
      → has flags o_nonblock ≡ true
      → (flags_set os (r, t)).0 ≡ true
      → (is_nonblocking os n (flags_set os (r, t)).1).0 ≡ true
  unfolding is_nonblocking
  set_then_asked flags (returned u) t same e h =
      let (r, w) = os.get_flags t.world n in
      bit_of os flags
        (
          r,
          record { world = w; errno = errno_after t.errno r; trace = get_flags_call n r ∷ t.trace },
        )
        same e
  set_then_asked flags (failed x) t same e h = absurd (false_is_not_true h)

  -- If `set_nonblocking` returns true, `is_nonblocking` of the same descriptor returns true after it.
  pub set_nonblocking-is_nonblocking :
      (io : Io W)
      → (set_nonblocking os n io).0 ≡ true
      → (is_nonblocking os n (set_nonblocking os n io).1).0 ≡ true
  unfolding set_nonblocking
  set_nonblocking-is_nonblocking io = let (r, w) = os.get_flags io.world n in got r w
    where
      with_flags : Reply ℕ → W → Io W
      with_flags r w = record {
        world = w;
        errno = errno_after io.errno r;
        trace = get_flags_call n r ∷ io.trace;
      }

      got :
          (r : Reply ℕ) (w : W)
          → (flags_got os n (r, with_flags r w)).0 ≡ true
          → (is_nonblocking os n (flags_got os n (r, with_flags r w)).1).0 ≡ true
      got (failed e) w h = absurd (false_is_not_true h)
      got (returned flags) w h =
          let (r, v) = os.set_flags w n (bit_or flags o_nonblock) in
          set_then_asked (bit_or flags o_nonblock) r
            (record {
              world = v;
              errno = errno_after io.errno r;
              trace =
                  set_flags_call n (bit_or flags o_nonblock) r
                  ∷ get_flags_call n (returned flags)
                  ∷ io.trace;
            })
            (law w n (bit_or flags o_nonblock)) (has_after_or flags) h
