-- ===== src/Tests/Counter.antt =====
-- A system whose state is the number of clients and bytes that wait, of which it shows at most
-- three; its descriptors are their numbers.
use linux_tcp_servers.Common.{
  some, ℕ, zero, suc, ℤ, pos, negsuc, min, ◌≡◌, refl, is_negative, not, List, [], ◌∷◌, length,
  arith,
}
use linux_tcp_servers.Os.{Os, Reply, returned, failed, eagain, fd}
use linux_tcp_servers.Os.Flags.{epollin}
use linux_tcp_servers.Descriptor.{FdClass}
use linux_tcp_servers.Descriptor.Finite.{Finite, AcceptTakes, ReadTakes}
use linux_tcp_servers.Descriptor.Closes.{Guard, unchanged}
use linux_tcp_servers.Blocking.Main.{SetupAddsNone}
use linux_tcp_servers.Edge.Fds.{Holds, EpollQuiet}

abbrev pub take_client : ℕ → Reply ℕ × ℕ
take_client zero = (failed eagain, zero)
take_client (suc n) = (returned (suc (suc n)), n)

abbrev pub take_byte : ℕ → Reply (List ℕ) × ℕ
take_byte zero = (failed eagain, zero)
take_byte (suc n) = (returned (65 ∷ []), n)

abbrev pub amount : ℕ → ℕ
amount n = min n 3

abbrev pub counter : Os ℕ
counter = record {
  accept = λ w sfd b. take_client (amount w);
  read = λ w sfd count. take_byte (amount w);
  write = λ w sfd bytes. (returned (length bytes), w);
  close = λ w sfd. w;
  epoll_create = λ w. (returned 5, w);
  epoll_ctl = λ w epfd op sfd e. (returned tt, w);
  epoll_wait = λ w epfd n. (returned (record { events = epollin; data_of = fd (pos 3) } ∷ []), w);
  select = λ w n set. (returned set, w);
  getaddrinfo =
      λ w port. (returned (record { family = 2; socktype = 1; protocol = 6; addr = 1 } ∷ []), w);
  socket = λ w f t p. (returned 3, w);
  setsockopt = λ w sfd option. w;
  bind = λ w sfd addr. (returned tt, w);
  listen = λ w sfd backlog. (returned tt, w);
  fork = λ w. (returned 0, w);
  gethostbyname = λ w name. (some 1, w);
  connect = λ w sfd host port. (returned tt, w);
  get_flags = λ w sfd. (returned 0, w);
  set_flags = λ w sfd flags. (returned tt, w);
}

-- A descriptor is its number.
abbrev pub plain : FdClass ℕ ℤ
plain = record {
  empty = negsuc 0;
  holding = λ n. n;
  get_fd = λ n. n;
  set_fd = λ n f io. ((not (is_negative n), n), io);
  close_fd = λ f io. (negsuc 0, io);
  destroy = λ f io. io;
}

take_client_lem : (w n : ℕ) → amount w ≡ n → AcceptTakes amount w (take_client n)
take_client_lem w zero e = omega arith
take_client_lem w (suc n) e = omega arith

take_byte_lem : (w n : ℕ) → amount w ≡ n → ReadTakes amount w (take_byte n)
take_byte_lem w zero e = omega arith
take_byte_lem w (suc n) e = omega arith

pub counter-Finite : Finite counter plain amount
counter-Finite = record {
  accept_takes = λ w sfd b. take_client_lem w (amount w) refl;
  read_takes = λ w sfd count. take_byte_lem w (amount w) refl;
  write_adds_none = λ w sfd bytes. omega arith;
  set_adds_none = λ n f io. omega arith;
  close_adds_none = λ f io. omega arith;
  destroy_adds_none = λ f io. omega arith;
  set_tells = λ n f io. refl;
}

pub plain-Guard : Guard plain
plain-Guard = record {
  set_closes = λ n f io. unchanged;
  close_closes = λ f io. unchanged;
  destroy_closes = λ f io. unchanged;
}

pub counter-SetupAddsNone : SetupAddsNone counter amount
counter-SetupAddsNone = record {
  addr_adds_none = λ w port. omega arith;
  socket_adds_none = λ w f t p. omega arith;
  option_adds_none = λ w sfd o. omega arith;
  bind_adds_none = λ w sfd a. omega arith;
  listen_adds_none = λ w sfd backlog. omega arith;
}

pub plain-Holds : Holds plain
plain-Holds = record { set_good = λ n f io. refl; set_holds = λ n f io. refl }

pub counter-EpollQuiet : EpollQuiet counter amount
counter-EpollQuiet = record {
  reports_fds = λ w epfd n. (tt, tt);
  wait_adds_none = λ w epfd n. omega arith;
  create_adds_none = λ w. omega arith;
  ctl_adds_none = λ w epfd op sfd e. omega arith;
  sys_close_adds_none = λ w sfd. omega arith;
}
