-- ===== src/Tests/ServerRuns.antt =====
-- A server that is launched on a system with two addresses, of which the first is taken.
use linux_tcp_servers.Common.{
  ℕ, zero, suc, ℤ, pos, negsuc, ◌≡◌, refl, true, false, [], ◌∷◌, Option, none, some,
}
use linux_tcp_servers.Os.{Os, Io, Reply, AddrInfo, returned, failed, other, eagain}
use linux_tcp_servers.Setup.{Setup, listening, raised, setup_server_tcp_socket, try_addresses}
use linux_tcp_servers.Setup.Calls.{left_open}
use linux_tcp_servers.Setup.Leaks.{SocketLaws, NoLeak, setup_server_tcp_socket-NoLeak}
use linux_tcp_servers.Setup.Listens.{Listens, setup_server_tcp_socket-Listens}
use linux_tcp_servers.Setup.Options.{SetsOptions, io_of, setup_server_tcp_socket-SetsOptions}
use linux_tcp_servers.Tests.Net.{Net, net}

abbrev address : ℕ → AddrInfo
address n = record { family = 2; socktype = 1; protocol = 6; addr = n }

abbrev bind_reply : ℤ → ℕ → Reply (Unit {0})
bind_reply (negsuc n) addr = failed (other 9)
bind_reply (pos n) zero = failed (other 98)
bind_reply (pos n) (suc addr) = returned tt

abbrev busy : Os Net
busy = record net {
  getaddrinfo = λ w port. (returned (address 0 ∷ address 1 ∷ []), w);
  socket = λ w f t p. (returned (suc w.next), record w { next = suc w.next });
  bind = λ w sfd addr. (bind_reply sfd addr, w);
}

busy-SocketLaws : SocketLaws busy
busy-SocketLaws = record { bad_fd = λ w addr e. cc }

abbrev idle : Io Net
idle = record {
  world = record { clients = 0; next = 3; inbox = []; watching = [] };
  errno = eagain;
  trace = [];
}

setup_server_tcp_socket-NoLeak_example :
    NoLeak [] (setup_server_tcp_socket busy "1606" (pos 50) true true idle)
unfolding left_open
setup_server_tcp_socket-NoLeak_example =
    setup_server_tcp_socket-NoLeak busy busy-SocketLaws (pos 50) true true [] "1606" idle refl

setup_server_tcp_socket-Listens_example :
    Listens (pos 50) (setup_server_tcp_socket busy "1606" (pos 50) true false idle)
setup_server_tcp_socket-Listens_example =
    setup_server_tcp_socket-Listens busy (pos 50) true false "1606" idle

setup_server_tcp_socket-SetsOptions_example :
    SetsOptions idle.trace true
      (io_of (setup_server_tcp_socket busy "1606" (pos 50) true true idle)).trace
setup_server_tcp_socket-SetsOptions_example =
    setup_server_tcp_socket-SetsOptions busy "1606" (pos 50) true true idle

abbrev listening_fd : Setup Net → Option ℤ
listening_fd (listening sfd io) = some sfd
listening_fd (raised e io) = none

-- The first socket, 4, is closed again.
second_address :
    listening_fd (setup_server_tcp_socket busy "1606" (pos 50) true true idle) ≡ some (pos 5)
unfolding setup_server_tcp_socket try_addresses
second_address = refl
