-- ===== src/Tests/LogRuns.antt =====
-- The log of a worker that has accepted a client and has failed then.
use linux_tcp_servers.Common.{
  ℕ, ◌≡◌, refl, List, [], ◌∷◌, map, Option, none, some, ok, undefined, null_pointer,
}
use linux_tcp_servers.Clients.{bytes_of}
use linux_tcp_servers.Logging.{newline, log, decimal_in}
use linux_tcp_servers.Logging.Entries.{one_line-Indented, read_log, info, error}
use linux_tcp_servers.Logging.Said.{AllFit, Said, said, client, say_all, all_entries}
use linux_tcp_servers.Logging.ReadBack.{line_Indented, read_log-say_all}

abbrev one_host : ℕ → List ℕ → ℕ → Option (List ℕ)
one_host family ip size = some (bytes_of "10.0.0.7")

abbrev failed_later : List Said
failed_later =
    client 2 8080 (10 ∷ 0 ∷ 0 ∷ 7 ∷ []) []
    ∷ said info (bytes_of "Add new client socket fd " ∷ bytes_of "5" ∷ [])
    ∷ said error
        (bytes_of "epoll_wait() failed" ∷ bytes_of "\n\t" ∷ bytes_of "Bad file descriptor" ∷ [])
    ∷ []

failed_later-AllFit : AllFit one_host failed_later
unfolding bytes_of
failed_later-AllFit =
    let reason : List ℕ = bytes_of "\tBad file descriptor" in
    (
      (refl, ((λ e. refl), (λ e. refl))),
      (
        line_Indented one_host (bytes_of "Add new client socket fd 5") refl,
        (
          one_line-Indented (bytes_of "epoll_wait() failed") (newline ∷ reason) refl
              ((λ e. refl), line_Indented one_host reason refl),
          tt,
        ),
      ),
    )

-- The port 8080 is logged as 36895.
failed_later_log :
    say_all one_host failed_later []
    ≡ ok (
        bytes_of
          "INFO: New IPv4 client connected: address=10.0.0.7, port=36895\nINFO: Add new client socket fd 5\nERROR: epoll_wait() failed\n\tBad file descriptor\n")
unfolding bytes_of log decimal_in
failed_later_log = refl

read_log-say_all_example :
    (out : List ℕ) × ((say_all one_host failed_later [] ≡ ok out)
      × (read_log out ≡ map (λ e. some e) (all_entries one_host failed_later)))
read_log-say_all_example = read_log-say_all one_host failed_later failed_later-AllFit

-- The text of a long IPv6 address does not fit into sixteen bytes.
abbrev no_text : ℕ → List ℕ → ℕ → Option (List ℕ)
no_text family ip size = none

long_address_breaks : say_all no_text (client 10 8080 [] [] ∷ []) [] ≡ undefined null_pointer
unfolding bytes_of
long_address_breaks = refl
