-- ===== src/Tests/ClientRuns.antt =====
-- The clients, on a system that answers.
use Prim.Native.String.{String}
use linux_tcp_servers.Common.{
  ◌≤◌, ◌<◌, negsuc, Returns, ℕ, zero, suc, ℤ, pos, ◌+◌, List, [], ◌∷◌, ◌++◌, length, some, arith,
}
use linux_tcp_servers.Os.{Os, Io, Reply, returned, eagain, host_call}
use linux_tcp_servers.Clients.{port_number, host_argument, to_port, echo_client_main}
use linux_tcp_servers.Clients.Conversation.{
  ReadsSent, EchoServer, SucceedsWith, HasTalked, echo_client_main-HasTalked,
}
use linux_tcp_servers.Clients.PingPong.{
  num_threads, at_work, started_threads, take_turns, multi_client_main,
}
use linux_tcp_servers.Clients.PingPong.Turns.{HasPinged, multi_client_main-HasPinged}
use linux_tcp_servers.Clients.PingPong.Finishes.{turns_for, HasEnded, multi_client_main-HasEnded}
use linux_tcp_servers.Clients.PingPong.Sockets.{SocketLaws}
use linux_tcp_servers.Clients.PingPong.Owners.{Owning, take_turns-OwnSockets}
use linux_tcp_servers.Tests.Counter.{counter}

abbrev one_back : ℕ → Reply (List ℕ) × ℕ
one_back zero = (returned [], zero)
one_back (suc n) = (returned (65 ∷ []), n)

-- Its state is the number of bytes on their way back.
abbrev mirror : Os ℕ
mirror = record counter {
  write = λ w sfd bytes. (returned (length bytes), w + length bytes);
  read = λ w sfd count. one_back w;
}

one_back-ReadsSent : (w : ℕ) → ReadsSent (λ n. n) w (one_back w)
one_back-ReadsSent zero = omega arith
one_back-ReadsSent (suc n) = omega arith

mirror-EchoServer : EchoServer mirror (λ n. n)
mirror-EchoServer = record {
  written_back = λ w sfd bytes. omega arith;
  reads_sent = λ w sfd count. one_back-ReadsSent w;
  socket_silent = λ w f t p. omega arith;
  host_silent = λ w name. omega arith;
  connect_silent = λ w sfd host port. omega arith;
}

abbrev quiet_start : Io ℕ
quiet_start = record { world = 0; errno = eagain; trace = [] }

abbrev port_1606 : String → ℤ
port_1606 text = pos 1606

abbrev to_localhost : List String
to_localhost = "client" ∷ "localhost" ∷ []

echo_client_main-HasTalked_example :
    Returns
      (SucceedsWith (
        HasTalked mirror
          (λ n. n)
          mirror-EchoServer
          (to_port (port_number port_1606 to_localhost))
          (host_argument to_localhost)
          []))
      (echo_client_main mirror port_1606 to_localhost quiet_start)
echo_client_main-HasTalked_example =
    echo_client_main-HasTalked mirror (λ n. n) mirror-EchoServer port_1606 to_localhost quiet_start
      (omega arith)

abbrev each_once : List ℕ
each_once = 0 ∷ 1 ∷ 2 ∷ 3 ∷ 4 ∷ 5 ∷ 6 ∷ 7 ∷ 8 ∷ 9 ∷ 10 ∷ []

-- Each thread has so many turns.
abbrev in_rounds : ℕ → List ℕ
in_rounds zero = []
in_rounds (suc n) = each_once ++ in_rounds n

multi_client_main-HasPinged_example :
    HasPinged
      (some 1)
      (to_port (port_number port_1606 to_localhost))
      (host_call (host_argument to_localhost) (some 1) ∷ [])
      (multi_client_main counter port_1606 to_localhost (in_rounds 52) quiet_start)
multi_client_main-HasPinged_example =
    multi_client_main-HasPinged counter port_1606 to_localhost (in_rounds 52) quiet_start

one_round :
    (k : ℕ) (rest : List ℕ) → k ≤ 10 → suc (turns_for k rest) ≤ turns_for k (each_once ++ rest)
one_round zero rest h = omega arith
one_round (suc zero) rest h = omega arith
one_round (suc (suc zero)) rest h = omega arith
one_round (suc (suc (suc zero))) rest h = omega arith
one_round (suc (suc (suc (suc zero)))) rest h = omega arith
one_round (suc (suc (suc (suc (suc zero))))) rest h = omega arith
one_round (suc (suc (suc (suc (suc (suc zero)))))) rest h = omega arith
one_round (suc (suc (suc (suc (suc (suc (suc zero))))))) rest h = omega arith
one_round (suc (suc (suc (suc (suc (suc (suc (suc zero)))))))) rest h = omega arith
one_round (suc (suc (suc (suc (suc (suc (suc (suc (suc zero))))))))) rest h = omega arith
one_round (suc (suc (suc (suc (suc (suc (suc (suc (suc (suc zero)))))))))) rest h = omega arith
one_round (suc (suc (suc (suc (suc (suc (suc (suc (suc (suc (suc k))))))))))) rest h = omega arith

each_turn : (n k : ℕ) → k ≤ 10 → n ≤ turns_for k (in_rounds n)
each_turn zero k h = omega arith
each_turn (suc n) k h = omega (arith, one_round k (in_rounds n) h, each_turn n k h)

multi_client_main-HasEnded_example :
    HasEnded (multi_client_main counter port_1606 to_localhost (in_rounds 52) quiet_start)
multi_client_main-HasEnded_example =
    multi_client_main-HasEnded counter port_1606 to_localhost (in_rounds 52) quiet_start
      (each_turn 52)

-- Each new socket has the next number, which is the system's state.
abbrev numbering : Os ℕ
numbering = record counter { socket = λ w f t p. (returned w, suc w) }

abbrev GivenOut : ℕ → ℤ → Type 0
GivenOut w (pos n) = n < w
GivenOut w (negsuc n) = ⊥

GivenOut-still : (w : ℕ) (k : ℤ) → GivenOut w k → GivenOut (suc w) k
GivenOut-still w (pos n) h = omega (arith, h)
GivenOut-still w (negsuc n) h = h

numbering-SocketLaws : SocketLaws numbering GivenOut
numbering-SocketLaws = record {
  new_socket = λ w f t p. (((λ h. omega (arith, h)), omega arith), GivenOut-still w);
  connect_keeps = λ w sfd host port k h. h;
  write_keeps = λ w sfd bytes k h. h;
  close_keeps = λ w sfd k other h. h;
}

take_turns-OwnSockets_example : Owning numbering GivenOut numbering-SocketLaws 1606 (some 1) (
    take_turns numbering 1606
      (some 1)
      (in_rounds 8)
      (at_work (started_threads num_threads) quiet_start))
take_turns-OwnSockets_example =
    take_turns-OwnSockets numbering GivenOut numbering-SocketLaws 1606 (some 1) (in_rounds 8)
      quiet_start
