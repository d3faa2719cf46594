-- ===== src/Tests/FlagRuns.antt =====
-- The flags of a descriptor, on a system whose state is one word of flags.
use linux_tcp_servers.Common.{ℕ, pos, ◌≡◌, refl, true, []}
use linux_tcp_servers.Os.{Os, Io, returned, eagain}
use linux_tcp_servers.Fcntl.{set_nonblocking, is_nonblocking}
use linux_tcp_servers.Fcntl.Roundtrip.{FlagsLaw, set_nonblocking-is_nonblocking}
use linux_tcp_servers.Tests.Counter.{counter}

abbrev one_word : Os ℕ
one_word = record counter {
  get_flags = λ w sfd. (returned w, w);
  set_flags = λ w sfd flags. (returned tt, flags);
}

one_word-FlagsLaw : FlagsLaw one_word
one_word-FlagsLaw w n flags = refl

abbrev blocking : Io ℕ
blocking = record { world = 2; errno = eagain; trace = [] }

is_set : (set_nonblocking one_word (pos 4) blocking).0 ≡ true
unfolding set_nonblocking
is_set = refl

set_nonblocking-is_nonblocking_example :
    (is_nonblocking one_word (pos 4) (set_nonblocking one_word (pos 4) blocking).1).0 ≡ true
set_nonblocking-is_nonblocking_example =
    set_nonblocking-is_nonblocking one_word one_word-FlagsLaw (pos 4) blocking is_set
