-- ===== src/Os/Flags.antt =====
-- The flag words of epoll(7) and socket(2), as Linux documents them, and the test `word & flag`.
use linux_tcp_servers.Common.{ℕ, ◌^◌, bit_and, Bool, not, ◌==◌}

abbrev pub epollin : ℕ
epollin = 0x1

abbrev pub epollout : ℕ
epollout = 0x4

abbrev pub epollerr : ℕ
epollerr = 0x8

abbrev pub epollhup : ℕ
epollhup = 0x10

abbrev pub epollrdhup : ℕ
epollrdhup = 0x2000

abbrev pub epollexclusive : ℕ
epollexclusive = 2 ^ 28

abbrev pub epolloneshot : ℕ
epolloneshot = 2 ^ 30

abbrev pub epollet : ℕ
epollet = 2 ^ 31

abbrev pub sock_nonblock : ℕ
sock_nonblock = 0x800

-- SO_REUSEADDR is 2 and SO_REUSEPORT is 15.
abbrev pub so_reuseaddr : ℕ
so_reuseaddr = 2

abbrev pub so_reuseport : ℕ
so_reuseport = 15

abbrev pub has : ℕ → ℕ → Bool
has word flag = not (bit_and word flag == 0)
