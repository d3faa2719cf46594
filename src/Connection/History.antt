-- ===== src/Connection/History.antt =====
-- What a trace says of one descriptor: the bytes that came in and the bytes that went out since its
-- connection was opened, or its indices were reset after a failed `read`.
use linux_tcp_servers.Common.{ℕ, ℤ, ◌==ℤ◌, if◌then◌else◌, ◌&&◌, not, List, [], ◌∷◌, ◌++◌, take}
use linux_tcp_servers.Os.{
  Call, read_call, write_call, close_call, Reply, returned, failed, would_block, errno_after,
}
use linux_tcp_servers.Connection.{Handling}

module _ {W : Type 0} where
  -- The state after a call of `read` with its answer, and after a call of `write`.
  abbrev pub noted : Handling W → ℕ → W → Reply (List ℕ) → Handling W
  noted s count w r = record s {
    io = record {
      world = w;
      errno = errno_after s.io.errno r;
      trace = read_call s.conn.conn_fd count r ∷ s.io.trace;
    };
  }

  abbrev pub put : Handling W → List ℕ → W → Reply ℕ → Handling W
  put s bytes w r = record s {
    io = record {
      world = w;
      errno = errno_after s.io.errno r;
      trace = write_call s.conn.conn_fd bytes r ∷ s.io.trace;
    };
  }

abbrev pub heard : ℤ → Call → List ℕ → List ℕ
heard sfd (read_call f n (returned bytes)) before = if f ==ℤ sfd then before ++ bytes else before
heard sfd (read_call f n (failed e)) before =
    if (f ==ℤ sfd) && not (would_block e) then [] else before
heard sfd (close_call f) before = if f ==ℤ sfd then [] else before
heard sfd _ before = before

abbrev pub said : ℤ → Call → List ℕ → List ℕ
said sfd (write_call f bytes (returned n)) before =
    if f ==ℤ sfd then before ++ take n bytes else before
said sfd (read_call f n (failed e)) before =
    if (f ==ℤ sfd) && not (would_block e) then [] else before
said sfd (close_call f) before = if f ==ℤ sfd then [] else before
said sfd _ before = before

unfoldable pub received : ℤ → List Call → List ℕ
received sfd [] = []
received sfd (c ∷ trace) = heard sfd c (received sfd trace)

unfoldable pub sent : ℤ → List Call → List ℕ
sent sfd [] = []
sent sfd (c ∷ trace) = said sfd c (sent sfd trace)
