-- ===== src/Fork/Main.antt =====
-- A process of the forking server, from its command line on: the parent, or a child.
use Prim.Native.String.{String}
use linux_tcp_servers.Common.{ℕ, ◌≤◌}
use linux_tcp_servers.Os.{Os, Io}
use linux_tcp_servers.Descriptor.{FdClass}
use linux_tcp_servers.Descriptor.Finite.{Finite}
use linux_tcp_servers.Descriptor.Closes.{Guard, AllEchoed, MostlyEchoed}
use linux_tcp_servers.Blocking.{Exit, running, success, failure}
use linux_tcp_servers.Blocking.Main.{Echoing}
use linux_tcp_servers.Fork.{ForkRound, next_round, child_exits, fork_throws}

module _ {W Fd : Type 0} (os : Os W) (cls : FdClass W Fd) (amount : W → ℕ)
    (finite : Finite os cls amount) (guard : Guard cls) (fuel : ℕ)
    (forks : (w : W) → amount (os.fork w).1 ≤ amount w) where
  abbrev Good : Io W → Type 0
  Good = Echoing os cls amount finite guard fuel

  abbrev RoundGood : ForkRound W → Type 0
  RoundGood (next_round io) = Good io
  RoundGood (child_exits io) = Good io
  RoundGood (fork_throws e io) = MostlyEchoed io.trace

  -- A process that runs, or has ended with success, has echoed everything, but for what short
  -- writes have dropped; one that has failed, all but what came in last on one descriptor.
  abbrev pub HasEchoed : Exit W → Type 0
  HasEchoed (running io) = AllEchoed io.trace
  HasEchoed (success io) = AllEchoed io.trace
  HasEchoed (failure io) = MostlyEchoed io.trace
