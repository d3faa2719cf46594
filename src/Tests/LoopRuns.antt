-- ===== src/Tests/LoopRuns.antt =====
-- A client that has closed its side, for the loop of the SO_REUSEPORT server.
use linux_tcp_servers.Common.{
  ℤ, pos, negsuc, is_negative, not, ◌≡◌, refl, true, false, [], ◌∷◌, out_of_fuel,
}
use linux_tcp_servers.Os.{Os, Io, eagain, returned}
use linux_tcp_servers.Descriptor.{FdClass}
use linux_tcp_servers.Listener.{setup_listener}
use linux_tcp_servers.Listener.Bound.{IsListening, setup_listener-IsListening}
use linux_tcp_servers.ReusePort.{handle_chunks}
use linux_tcp_servers.ReusePort.Forever.{handle_chunks_forever}
use linux_tcp_servers.Tests.Net.{Net, net}

abbrev closed : Os Net
closed = record net {
  read = λ w sfd count. (returned [], w);
  getaddrinfo =
      λ w port. (returned (record { family = 2; socktype = 1; protocol = 6; addr = 1 } ∷ []), w);
}

abbrev idle : Io Net
idle = record {
  world = record { clients = 0; next = 8; inbox = []; watching = [] };
  errno = eagain;
  trace = [];
}

abbrev number : FdClass Net ℤ
number = record {
  empty = negsuc 0;
  holding = λ n. n;
  get_fd = λ n. n;
  set_fd = λ n f io. ((not (is_negative n), n), io);
  close_fd = λ f io. (negsuc 0, io);
  destroy = λ f io. io;
}

handle_chunks_forever_example :
    handle_chunks closed number
      (pos 3)
      (pos 4)
      (λ bytes io. io)
      100
      (pos 7)
      (record {
        world = record { clients = 0; next = 8; inbox = []; watching = [] };
        errno = eagain;
        trace = [];
      })
    ≡ out_of_fuel
handle_chunks_forever_example =
    handle_chunks_forever closed number (pos 3) (pos 4) (λ bytes io. io) (pos 7) 100
      (record {
        world = record { clients = 0; next = 8; inbox = []; watching = [] };
        errno = eagain;
        trace = [];
      })
      (λ w. refl)

setup_listener-IsListening_example :
    IsListening closed number
      (pos 50)
      true
      false
      (setup_listener closed number "1606" (pos 50) true false idle)
setup_listener-IsListening_example =
    setup_listener-IsListening closed number (pos 50) true false "1606" idle
