-- ===== src/Tests/SelectRuns.antt =====
-- The `select` server and the loops of the epoll servers on the small system.
use Prim.Native.String.{String}
use linux_tcp_servers.Select.Main.{select_main}
use linux_tcp_servers.Select.Serving.{ServesOrFails, select_main-ServesOrFails}
use linux_tcp_servers.Common.{Ends, out_of_bounds, ℕ, ℤ, pos, ◌≡◌, refl, [], ◌∷◌, arith}
use linux_tcp_servers.Os.{eagain}
use linux_tcp_servers.Select.{Select, fd_isset, lower_max, select_round}
use linux_tcp_servers.Tests.Counter.{
  counter, plain, amount, counter-Finite, plain-Guard, counter-SetupAddsNone,
}
use linux_tcp_servers.Descriptor.Closes.{come_in, gone_out}
use linux_tcp_servers.Descriptor.Relays.{Relays, nothing}
use linux_tcp_servers.Select.Ends.{Serves, IsCovered}
use linux_tcp_servers.Select.Covered.{IsRelaying, IsServable}
use linux_tcp_servers.Select.Rounds.{select_round-IsServable}
use linux_tcp_servers.EventLoop.{read_chunks}
use linux_tcp_servers.EventLoop.Drained.{Returns, IsDrained, read_chunks-IsDrained}

-- The server listens on 3; two clients or bytes wait.
abbrev one_listener : Select ℕ
one_listener = record {
  io = record { world = 2; errno = eagain; trace = [] };
  max_sfd = pos 3;
  read_fd_backup_set = 3 ∷ [];
  write_fd_backup_set = [];
}

one_listener-IsCovered : IsCovered one_listener
unfolding fd_isset
one_listener-IsCovered = ((refl, omega arith), (omega arith, tt))

nothing_said : Relays []
unfolding come_in gone_out
nothing_said k = nothing

select_round-IsServable_example :
    Serves
      (IsServable counter plain (pos 3) amount counter-Finite plain-Guard (λ n. refl) 2000)
      (IsRelaying counter plain (pos 3) amount counter-Finite plain-Guard (λ n. refl) 2000)
      (select_round counter plain (pos 3) 2000 one_listener)
select_round-IsServable_example =
    select_round-IsServable counter plain (pos 3) amount counter-Finite plain-Guard (λ n. refl) 2000
      one_listener (omega arith) (omega arith) one_listener-IsCovered nothing_said

-- Without the member 9 the greatest is 4.
searched : lower_max 9 (3 ∷ 4 ∷ []) ≡ pos 4
unfolding lower_max fd_isset
searched = refl

read_chunks-IsDrained_example :
    Returns
      (λ t. IsDrained (pos 4) (pos 7) t.trace)
      (read_chunks counter plain
        (pos 3)
        (pos 4)
        5
        (pos 7)
        (record { world = 2; errno = eagain; trace = [] }))
read_chunks-IsDrained_example =
    read_chunks-IsDrained counter plain (pos 3) (pos 4) amount counter-Finite (pos 7) 5
      (record { world = 2; errno = eagain; trace = [] }) (omega arith)

abbrev seven : String → ℤ
seven text = pos 7

select_main-ServesOrFails_example :
    Ends
      (λ e. e ≡ out_of_bounds)
      (ServesOrFails counter plain amount counter-Finite plain-Guard
        (λ n. refl)
        counter-SetupAddsNone
        (λ w n set. omega arith)
        2000
        (omega arith))
      (select_main counter plain seven
        ("server" ∷ [])
        2
        2000
        (record { world = 2; errno = eagain; trace = [] }))
select_main-ServesOrFails_example =
    select_main-ServesOrFails counter plain amount counter-Finite plain-Guard (λ n. refl)
      counter-SetupAddsNone (λ w n set. omega arith) 2000 (omega arith) seven ("server" ∷ []) 2
      (record { world = 2; errno = eagain; trace = [] }) (omega arith) nothing_said
