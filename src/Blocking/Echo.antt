-- ===== src/Blocking/Echo.antt =====
-- The echo of the blocking servers: what one client sends and what it gets back.
use linux_tcp_servers.Common.{Returns, ℕ, ℤ, ◌<◌, List, ◌∷◌, Outcome}
use linux_tcp_servers.Os.{Os, Io, Reply, errno_after, read_call}
use linux_tcp_servers.Descriptor.{FdClass}
use linux_tcp_servers.Descriptor.Finite.{Finite}
use linux_tcp_servers.Descriptor.Closes.{AllEchoed, MostlyEchoed}
use linux_tcp_servers.Blocking.{block_size, EchoEnd, end_of_file, reading_failed, writing_failed}

module _ {W Fd : Type 0} (os : Os W) (cls : FdClass W Fd) (amount : W → ℕ)
    (finite : Finite os cls amount) (fuel : ℕ) where
  -- Everything has been echoed, and the fuel is enough for what is to come.
  pub record IsEchoing (io : Io W) : Type 0 where
    pub echoed : AllEchoed io.trace
    pub enough : amount io.world < fuel

  -- At the end of the client's stream, and where a `read` has failed.
  abbrev pub EchoDone : EchoEnd W → Type 0
  EchoDone (end_of_file io) = IsEchoing io
  EchoDone (reading_failed io) = IsEchoing io
  EchoDone (writing_failed io) = MostlyEchoed io.trace

  abbrev remaining : Io W → ℕ
  remaining io = amount io.world

  abbrev Goal : Outcome (EchoEnd W) → Type 0
  Goal = Returns EchoDone

  module _ (n : ℤ) where
    abbrev after_read : Io W → Reply (List ℕ) → W → Io W
    after_read io r v = record {
      world = v;
      errno = errno_after io.errno r;
      trace = read_call n block_size r ∷ io.trace;
    }
