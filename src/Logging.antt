-- ===== src/Logging.antt =====
-- src/utilities/print_utility.h, and `log_client_info` in src/utilities/server_utility.cpp and in
-- src/servers/multi_worker_nonblocking_io_multiplexing_server.h. A content is the text that its `<<`
-- writes, and `std::cout` is what has been written to it; the flush of `std::endl` is left out.
pub mod Entries
pub mod Said
pub mod ReadBack
use Prim.Native.Nat.{◌/◌}
use linux_tcp_servers.Common.{
  ℕ, zero, suc, ◌+◌, ◌*◌, ◌%◌, ltb, ◌==◌, if◌then◌else◌, List, [], ◌∷◌, ◌++◌, Option, none, some,
  Outcome, ok, undefined, null_pointer,
}
use linux_tcp_servers.Clients.{bytes_of, af_inet}

abbrev pub newline : ℕ
newline = 10

unfoldable pub log : List ℕ → List (List ℕ) → List ℕ → List ℕ
log content [] out = (out ++ content) ++ (newline ∷ [])
log content (next ∷ log_contents) out = log next log_contents (out ++ content)

abbrev pub log_debug : List (List ℕ) → List ℕ → List ℕ
log_debug log_contents out = log (bytes_of "DEBUG: ") log_contents out

abbrev pub log_info : List (List ℕ) → List ℕ → List ℕ
log_info log_contents out = log (bytes_of "INFO: ") log_contents out

abbrev pub log_warning : List (List ℕ) → List ℕ → List ℕ
log_warning log_contents out = log (bytes_of "WARNING: ") log_contents out

abbrev pub log_error : List (List ℕ) → List ℕ → List ℕ
log_error log_contents out = log (bytes_of "ERROR: ") log_contents out

-- A number of sixteen bits has at most five digits.
unfoldable pub decimal_in : ℕ → ℕ → List ℕ
decimal_in zero n = []
decimal_in (suc digits) n =
    let rest = decimal_in digits (n / 10) in
    if ltb n 10 then (48 + n) ∷ [] else rest ++ ((48 + n % 10) ∷ [])

abbrev pub decimal : ℕ → List ℕ
decimal n = decimal_in 5 n

-- `sockaddr_storage`, with the two bytes of the port as they lie in memory.
pub record SockAddr : Type 0 where
  pub ss_family : ℕ
  pub port_bytes : ℕ × ℕ
  pub ip_bytes : List ℕ

-- `p->sin_port` and `p->sin6_port`, where the lower byte of a number lies first.
abbrev pub sin_port : SockAddr → ℕ
sin_port cli_addr = cli_addr.port_bytes.0 + 256 * cli_addr.port_bytes.1

abbrev pub af_inet6 : ℕ
af_inet6 = 10

-- INET_ADDRSTRLEN, which is given for IPv6 addresses as well.
abbrev pub inet_addrstrlen : ℕ
inet_addrstrlen = 16

-- The result of `inet_ntop` is written with `<<`, which must not be given a null pointer.
abbrev pub with_address : (List ℕ → List ℕ) → Option (List ℕ) → Outcome (List ℕ)
with_address write none = undefined null_pointer
with_address write (some text) = ok (write text)

-- `inet_ntop` gets the family, the address and the size of the text's buffer; `none` is a null pointer.
module _ (inet_ntop : ℕ → List ℕ → ℕ → Option (List ℕ)) where
  -- That of the utilities.
  abbrev pub log_client_info : SockAddr → List ℕ → List ℕ → Outcome (List ℕ)
  log_client_info cli_addr prefix_log out =
      if cli_addr.ss_family == af_inet
      then with_address
          (λ address.
            log_info
              (prefix_log
                ∷ bytes_of "New IPv4 client connected: address="
                ∷ address
                ∷ bytes_of ", port="
                ∷ decimal (sin_port cli_addr)
                ∷ [])
              out)
          (inet_ntop cli_addr.ss_family cli_addr.ip_bytes inet_addrstrlen)
      else if cli_addr.ss_family == af_inet6
      then with_address
          (λ address.
            log_info
              (prefix_log
                ∷ bytes_of "New IPv6 client connected: address="
                ∷ address
                ∷ bytes_of ", port="
                ∷ decimal (sin_port cli_addr)
                ∷ [])
              out)
          (inet_ntop cli_addr.ss_family cli_addr.ip_bytes inet_addrstrlen)
      else ok out

  -- That of the class `Worker`, which tells the line of its call.
  abbrev pub worker_log_client_info : SockAddr → List ℕ → List ℕ → Outcome (List ℕ)
  worker_log_client_info cli_addr prefix_log out =
      if cli_addr.ss_family == af_inet
      then with_address
          (λ address.
            log_info
              (prefix_log
                ∷ bytes_of "line "
                ∷ decimal 388
                ∷ bytes_of ":\t"
                ∷ bytes_of "New IPv4 client connected: address="
                ∷ address
                ∷ bytes_of ", port="
                ∷ decimal (sin_port cli_addr)
                ∷ [])
              out)
          (inet_ntop cli_addr.ss_family cli_addr.ip_bytes inet_addrstrlen)
      else if cli_addr.ss_family == af_inet6
      then with_address
          (λ address.
            log_info
              (prefix_log
                ∷ bytes_of "line "
                ∷ decimal 394
                ∷ bytes_of ":\t"
                ∷ bytes_of "New IPv6 client connected: address="
                ∷ address
                ∷ bytes_of ", port="
                ∷ decimal (sin_port cli_addr)
                ∷ [])
              out)
          (inet_ntop cli_addr.ss_family cli_addr.ip_bytes inet_addrstrlen)
      else ok out
