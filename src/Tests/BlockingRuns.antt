-- ===== src/Tests/BlockingRuns.antt =====
-- The blocking server and the forking one, on the small system.
use Prim.Native.String.{String}
use linux_tcp_servers.Common.{Returns, ℕ, ℤ, pos, ◌≡◌, ◌≢◌, refl, []}
use linux_tcp_servers.Os.{Os, Io, Reply, returned, eagain}
use linux_tcp_servers.Fork.{fork_rounds}
use linux_tcp_servers.Fork.Roles.{transfers, IsParent, fork_rounds-IsParent}
use linux_tcp_servers.Tests.Counter.{counter, plain, plain-Guard}

-- Two clients or bytes wait.
abbrev two_wait : Io ℕ
two_wait = record { world = 2; errno = eagain; trace = [] }

abbrev fifty : String → ℤ
fifty text = pos 50

-- In the parent.
abbrev parent_side : Os ℕ
parent_side = record counter { fork = λ w. (returned 7, w) }

child_number : ◌≢◌ {A = Reply ℕ} (returned 7) (returned 0)
child_number = cc

no_transfers : transfers two_wait.trace ≡ 0
unfolding transfers
no_transfers = refl

fork_rounds-IsParent_example :
    Returns
      (IsParent parent_side plain plain-Guard 5 (λ w. child_number) 0)
      (fork_rounds parent_side plain 3 5 (pos 3) two_wait)
fork_rounds-IsParent_example =
    fork_rounds-IsParent parent_side plain plain-Guard 5 (λ w. child_number) 0 3 (pos 3) two_wait
      no_transfers
