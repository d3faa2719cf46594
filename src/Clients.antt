-- ===== src/Clients.antt =====
-- src/clients/echo_client.cpp: ten messages and their echoes on one connection. `exit` and the end of
-- `main` end no scope and close no descriptor by themselves.
pub mod Conversation
pub mod PingPong
use Prim.Native.Char.{code}
use Prim.Native.String.{String, [] as no_text, ◌∷◌ as ◌▹◌}
use linux_tcp_servers.Common.{
  ℕ, zero, suc, ℤ, pos, negsuc, ◌-◌, ◌%◌, ◌^◌, ltb, ◌==◌, if◌then◌else◌, Bool, false, ◌||◌, List,
  [], ◌∷◌, length, Option, none, some, Outcome, ok, undefined, out_of_bounds, ◌>>=◌,
}
use linux_tcp_servers.Os.{
  Os, Io, Reply, returned, failed, sys_read, sys_write, sys_socket, sys_gethostbyname, sys_connect,
}
use linux_tcp_servers.Arguments.{default_port, get_elem?, text_or}
use linux_tcp_servers.Blocking.{Exit, success, failure}

-- The bytes of an ASCII text.
unfoldable pub bytes_of : String → List ℕ
bytes_of no_text = []
bytes_of (c ▹ s) = code c ∷ bytes_of s

-- AF_INET and SOCK_STREAM
abbrev pub af_inet : ℕ
af_inet = 2

abbrev pub sock_stream : ℕ
sock_stream = 1

-- `(argc < 3) ? atoi(DEFAULT_PORT) : atoi(argv[2])`
abbrev pub port_number : (String → ℤ) → List String → ℤ
port_number atoi argv = atoi (text_or default_port (get_elem? argv 2))

abbrev pub host_argument : List String → String
host_argument argv = text_or "localhost" (get_elem? argv 1)

-- `htons` takes sixteen bits; the order of the two bytes is left out.
abbrev pub to_port : ℤ → ℕ
to_port (pos n) = n % 2 ^ 16
to_port (negsuc n) = 2 ^ 16 - 1 - n % 2 ^ 16

abbrev pub write_buffer : List ℕ
write_buffer = bytes_of "Hello, I am the client.\nPlease echo back what I'm saying."

abbrev pub answer_size : ℕ
answer_size = 1024

unfoldable pub has_nul : List ℕ → Bool
has_nul [] = false
has_nul (b ∷ bytes) = (b == 0) || has_nul bytes

-- `std::cout << read_buffer.data()` reads up to the first 0; the buffer is cleared before the `read`.
abbrev pub print_answer : List ℕ → Outcome (Unit {0})
print_answer bytes =
    if ltb (length bytes) answer_size || has_nul bytes then ok tt else undefined out_of_bounds

module _ {W : Type 0} (os : Os W) where
  abbrev pub after_answer : (Io W → Outcome (Exit W)) → Reply (List ℕ) × Io W → Outcome (Exit W)
  after_answer next (failed e, io) = ok (failure io)
  after_answer next (returned bytes, io) = print_answer bytes >>= λ u. next io

  abbrev pub after_message : (Io W → Outcome (Exit W)) → ℤ → Reply ℕ × Io W → Outcome (Exit W)
  after_message next sockfd (failed e, io) = ok (failure io)
  after_message next sockfd (returned n, io) = after_answer next (sys_read os sockfd answer_size io)

  -- The loop over the messages.
  unfoldable pub converse : ℕ → ℤ → Io W → Outcome (Exit W)
  converse zero sockfd io = ok (success io)
  converse (suc n) sockfd io =
      after_message (converse n sockfd) sockfd (sys_write os sockfd write_buffer io)

  abbrev pub after_connect : ℤ → Reply (Unit {0}) × Io W → Outcome (Exit W)
  after_connect sockfd (failed e, io) = ok (failure io)
  after_connect sockfd (returned u, io) = converse 10 sockfd io

  abbrev pub host_found : ℕ → ℤ → Option ℕ × Io W → Outcome (Exit W)
  host_found port sockfd (none, io) = ok (success io)
  host_found port sockfd (some server, io) =
      after_connect sockfd (sys_connect os sockfd server port io)

  abbrev pub socket_opened : ℕ → String → Reply ℕ × Io W → Outcome (Exit W)
  socket_opened port host (failed e, io) = ok (failure io)
  socket_opened port host (returned n, io) = host_found port (pos n) (sys_gethostbyname os host io)

  -- `main`
  unfoldable pub echo_client_main : (String → ℤ) → List String → Io W → Outcome (Exit W)
  echo_client_main atoi argv io =
      socket_opened (to_port (port_number atoi argv)) (host_argument argv)
        (sys_socket os af_inet sock_stream 0 io)
