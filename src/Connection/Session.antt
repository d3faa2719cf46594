-- ===== src/Connection/Session.antt =====
-- The whole life of a connection: one event after the other, and in between the rest of the world does
-- what it likes.
use linux_tcp_servers.Common.{
  ℕ, ℤ, ◌≤◌, ◌<◌, ◌≡◌, refl, ◌∙◌, sym, ap, List, [], ◌∷◌, ◌++◌, arith, length, take, drop,
  length-take, take-take, take-append-drop, Outcome, ok, Ends, Ends-bind, Ends-map, ◌>>=◌,
}
use linux_tcp_servers.Os.{Os, Io, Errno}
use linux_tcp_servers.Os.Laws.{Transfers}
use linux_tcp_servers.Connection.{connection, Handling, buffer_size, handle_connection_event}
use linux_tcp_servers.Connection.Bounds.{OnlyBounds, connection-IsValid}
use linux_tcp_servers.Connection.Echo.{IsEcho, handle_connection_event-IsEcho}
use linux_tcp_servers.Connection.History.{received, sent}

module _ {W : Type 0} (os : Os W) (epoll_fd : ℤ) (address : ℕ) where
  -- Before each event the system is in some state, and `errno` has some value.
  unfoldable pub serve : ℕ → List (W × Errno) → Handling W → Outcome (Handling W)
  serve fuel [] s = ok s
  serve fuel ((w, e) ∷ events) s =
      handle_connection_event os epoll_fd address fuel
        (record s { io = record s.io { world = w; errno = e } })
      >>= λ t. serve fuel events t

  -- What went out is a prefix of what came in, which is at most what the buffer holds.
  abbrev pub EchoesPrefix : ℤ → Handling W → Type 0
  EchoesPrefix sfd t =
      (rest : List ℕ) × (received sfd t.io.trace ≡ sent sfd t.io.trace ++ rest)
      × (length (received sfd t.io.trace) ≤ buffer_size)

  IsEcho-EchoesPrefix : (sfd : ℤ) (t : Handling W) → IsEcho sfd t → EchoesPrefix sfd t
  IsEcho-EchoesPrefix sfd t h = (
    drop wi (take ri buf),
    h.came
        ∙ sym (take-append-drop wi (take ri buf))
        ∙ ap (λ xs. xs ++ drop wi (take ri buf))
            (take-take wi ri buf h.valid.write_in ∙ sym h.went),
    omega (arith, ap length h.came, length-take ri buf, h.valid.read_in),
  )
    where
      open t.conn use {buffer as buf, read_index as ri, write_index as wi}

  module _ (laws : Transfers os) (sfd : ℤ) (fuel : ℕ) (enough : buffer_size < fuel) where
    serve-IsEcho :
        (events : List (W × Errno)) (s : Handling W)
        → IsEcho sfd s
        → Ends OnlyBounds (IsEcho sfd) (serve fuel events s)
    unfolding serve
    serve-IsEcho [] s h = h
    serve-IsEcho ((w, e) ∷ events) s h =
        Ends-bind OnlyBounds (IsEcho sfd) (IsEcho sfd) _ _
          (handle_connection_event-IsEcho os epoll_fd address sfd laws fuel
            (record s { io = record s.io { world = w; errno = e } }) enough
            (record { own = h.own; valid = h.valid; came = h.came; went = h.went }))
          (λ t k. serve-IsEcho events t k)

    -- The server echoes: after any number of events of a new connection, in whatever states of the
    -- system they come, the bytes sent on it are a prefix of the bytes received on it, in order and
    -- without change (both counted from the last `read` that failed other than for want of data,
    -- upon which the server starts anew), and no more than 1024 have been taken. The one exception
    -- is a run that stored or logged a byte outside the buffer; no exception is thrown and no loop
    -- runs on.
    pub serve-EchoesPrefix :
        (events : List (W × Errno)) (io : Io W)
        → received sfd io.trace ≡ []
        → sent sfd io.trace ≡ []
        → Ends OnlyBounds
            (EchoesPrefix sfd)
            (serve fuel events (record { io = io; conn = connection sfd }))
    unfolding connection
    serve-EchoesPrefix events io none_in none_out =
        Ends-map OnlyBounds (IsEcho sfd) OnlyBounds (EchoesPrefix sfd) _ (λ e f. f)
          (IsEcho-EchoesPrefix sfd)
          (serve-IsEcho events (record { io = io; conn = connection sfd })
            (record {
              own = refl;
              valid = connection-IsValid sfd;
              came = none_in;
              went = none_out;
            }))
