-- ===== src/Tests/ConnectionRuns.antt =====
-- One connection on the small kernel.
use linux_tcp_servers.Common.{pos, ◌≡◌, refl, [], ◌∷◌, arith, ok, undefined, out_of_bounds, Ends}
use linux_tcp_servers.Os.{Os, Io, eagain, returned}
use linux_tcp_servers.Connection.{connection, Handling, handle_connection_event}
use linux_tcp_servers.Connection.Bounds.{IsValid, OnlyBounds, connection-IsValid}
use linux_tcp_servers.Connection.Echo.{IsEcho, handle_connection_event-IsEcho}
use linux_tcp_servers.Connection.Session.{serve, EchoesPrefix, serve-EchoesPrefix}
use linux_tcp_servers.Connection.Rearm.{Rearmed, rearms, handle_connection_event-Rearmed}
use linux_tcp_servers.Connection.Limits.{after_eof, read_overflows, eof_abandons}
use linux_tcp_servers.Connection.History.{received, sent}
use linux_tcp_servers.Tests.Net.{Net, net, net-Transfers}

-- Three bytes wait.
abbrev three : Net
three = record { clients = 0; next = 6; inbox = 104 ∷ 105 ∷ 33 ∷ []; watching = [] }

abbrev quiet_io : Io Net
quiet_io = record { world = three; errno = eagain; trace = [] }

abbrev fresh : Handling Net
fresh = record { io = quiet_io; conn = connection (pos 5) }

fresh-IsEcho : IsEcho (pos 5) fresh
unfolding connection received sent
fresh-IsEcho = record { own = refl; valid = connection-IsValid (pos 5); came = refl; went = refl }

handle_connection_event-IsEcho_example :
    Ends OnlyBounds (IsEcho (pos 5)) (handle_connection_event net (pos 4) 0 2000 fresh)
handle_connection_event-IsEcho_example =
    handle_connection_event-IsEcho net (pos 4) 0 (pos 5) net-Transfers 2000 fresh (omega arith)
      fresh-IsEcho

serve-EchoesPrefix_example : Ends OnlyBounds (EchoesPrefix net (pos 4) 0 (pos 5)) (
    serve net
      (pos 4)
      0
      2000
      ((three, eagain) ∷ (three, eagain) ∷ [])
      (record { io = quiet_io; conn = connection (pos 5) }))
unfolding received sent
serve-EchoesPrefix_example =
    serve-EchoesPrefix net (pos 4) 0 net-Transfers (pos 5) 2000 (omega arith)
      ((three, eagain) ∷ (three, eagain) ∷ []) quiet_io refl refl

handle_connection_event-Rearmed_example :
    Ends OnlyBounds
      (Rearmed net (pos 4) 0 (pos 5) [])
      (handle_connection_event net (pos 4) 0 2000 fresh)
unfolding rearms
handle_connection_event-Rearmed_example =
    handle_connection_event-Rearmed net (pos 4) 0 (pos 5) 2000 fresh net-Transfers (omega arith)
      fresh-IsEcho

-- A connection that has taken its 1024 bytes.
abbrev full : Handling Net
full = record {
  io = record quiet_io { world = record three { inbox = 9 ∷ [] } };
  conn = record (connection (pos 5)) { read_index = 1024; write_index = 1024 };
}

full-IsValid : IsValid full.conn
unfolding connection
full-IsValid = record {
  size = (connection-IsValid (pos 5)).size;
  read_in = omega arith;
  write_in = omega arith;
}

read_overflows_example : handle_connection_event net (pos 4) 0 2000 full ≡ undefined out_of_bounds
unfolding connection
read_overflows_example = read_overflows net (pos 4) 0 1999 full 9 [] full-IsValid refl refl refl

-- A client that has closed its side.
abbrev ended : Os Net
ended = record net { read = λ w sfd count. (returned [], w) }

eof_abandons_example :
    handle_connection_event ended (pos 4) 0 2000 fresh ≡ ok (after_eof ended (pos 4) 0 fresh)
unfolding connection
eof_abandons_example = eof_abandons ended (pos 4) 0 1999 fresh refl refl
