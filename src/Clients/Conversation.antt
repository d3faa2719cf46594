-- ===== src/Clients/Conversation.antt =====
-- What the echo client sends, and how it ends.
use Prim.Native.String.{String}
use linux_tcp_servers.Common.{
  Returns, ◌⊎◌, inl, inr, subst, ℕ, zero, suc, ℤ, pos, ◌+◌, ◌*◌, ◌≤◌, ◌<◌, ◌≡◌, refl, List, ◌∷◌,
  length, Option, none, some, arith, ok,
}
use linux_tcp_servers.Os.{
  Os, Io, Call, read_call, write_call, connect_call, host_call, socket_call, Reply, returned,
  failed, errno_after,
}
use linux_tcp_servers.Blocking.{Exit, running, success, failure}
use linux_tcp_servers.Clients.{
  af_inet, sock_stream, port_number, host_argument, to_port, write_buffer, answer_size,
  print_answer, after_answer, after_message, converse, after_connect, host_found, socket_opened,
  echo_client_main, bytes_of,
}

-- So many times a message was written and an answer read, after the calls of `before`.
pub data Exchanged (sockfd : ℤ) (before : List Call) : ℕ → List Call → Type 0 where
  nothing_yet : Exchanged sockfd before 0 before
  one_exchange :
      (sent_no : ℕ) (bytes : List ℕ) {n : ℕ} {t : List Call}
      → Exchanged sockfd before n t
      → Exchanged sockfd before (suc n) (
          read_call sockfd answer_size (returned bytes)
          ∷ write_call sockfd write_buffer (returned sent_no)
          ∷ t)

abbrev pub ReadsSent : {W : Type 0} → (W → ℕ) → W → Reply (List ℕ) × W → Type 0
ReadsSent on_its_way w (returned bytes, v) = length bytes + on_its_way v ≤ on_its_way w
ReadsSent on_its_way w (failed e, v) = on_its_way v ≤ on_its_way w

-- An echo server: what comes back to the client is no more than what the client has sent.
pub record EchoServer {W : Type 0} (os : Os W) (on_its_way : W → ℕ) : Type 0 where
  pub written_back :
      (w : W) (sfd : ℤ) (bytes : List ℕ)
      → on_its_way (os.write w sfd bytes).1 ≤ on_its_way w + length bytes
  pub reads_sent : (w : W) (sfd : ℤ) (count : ℕ) → ReadsSent on_its_way w (os.read w sfd count)
  pub socket_silent : (w : W) (f t p : ℕ) → on_its_way (os.socket w f t p).1 ≤ on_its_way w
  pub host_silent : (w : W) (name : String) → on_its_way (os.gethostbyname w name).1 ≤ on_its_way w
  pub connect_silent :
      (w : W) (sfd : ℤ) (host port : ℕ) → on_its_way (os.connect w sfd host port).1 ≤ on_its_way w

-- The last call is one that has failed.
abbrev pub LastFails : List Call → Type 0
LastFails (socket_call f t p (failed e) ∷ trace) = Unit
LastFails (connect_call sfd host port (failed e) ∷ trace) = Unit
LastFails (write_call sfd bytes (failed e) ∷ trace) = Unit
LastFails (read_call sfd count (failed e) ∷ trace) = Unit
LastFails trace = ⊥

-- The process has failed at its last call, or ended with success and such calls.
abbrev pub SucceedsWith : {W : Type 0} → (List Call → Type 0) → Exit W → Type 0
SucceedsWith P (running io) = ⊥
SucceedsWith P (success io) = P io.trace
SucceedsWith P (failure io) = LastFails io.trace

length-write_buffer : length write_buffer ≡ 57
unfolding bytes_of
length-write_buffer = refl

-- An answer that does not fill the buffer is printed.
print_answer_ok : (bytes : List ℕ) → length bytes < answer_size → print_answer bytes ≡ ok tt
print_answer_ok bytes h = ground arith

module _ {W : Type 0} (os : Os W) (on_its_way : W → ℕ) (echo : EchoServer os on_its_way) where
  module _ (port : ℕ) (host : String) (before : List Call) where
    -- After ten exchanges on the one connection to the host, or since there is no host of that name.
    abbrev pub HasTalked : List Call → Type 0
    HasTalked trace =
        ((n : ℕ) × ((h : ℕ) × Exchanged (pos n)
              (connect_call (pos n) h port (returned tt)
                ∷ host_call host (some h)
                ∷ socket_call af_inet sock_stream 0 (returned n)
                ∷ before)
              10 trace))
        ⊎ ((n : ℕ) × (trace
              ≡ host_call host none ∷ socket_call af_inet sock_stream 0 (returned n) ∷ before))

  module _ (sockfd : ℤ) (before : List Call) (P : List Call → Type 0)
      (finished : (t : List Call) → Exchanged sockfd before 10 t → P t) where
    converse-Talked :
        (done n : ℕ) (io : Io W)
        → done + n ≡ 10
        → on_its_way io.world + n * 57 < answer_size
        → Exchanged sockfd before done io.trace
        → Returns (SucceedsWith P) (converse os n sockfd io)
    unfolding converse
    converse-Talked done zero io e few talk =
        finished io.trace (subst (λ k. Exchanged sockfd before k io.trace) (omega arith) talk)
    converse-Talked done (suc n) io e few talk =
        let (r, w) = os.write io.world sockfd write_buffer in
        written (λ t low k. converse-Talked (suc done) n t (omega arith) low k) r w
          (echo.written_back io.world sockfd write_buffer)
      where
        wrote : Reply ℕ → W → Io W
        wrote r w = record {
          world = w;
          errno = errno_after io.errno r;
          trace = write_call sockfd write_buffer r ∷ io.trace;
        }

        read_back : ℕ → W → Reply (List ℕ) → W → Io W
        read_back k w r v = record {
          world = v;
          errno = errno_after io.errno r;
          trace =
              read_call sockfd answer_size r
              ∷ write_call sockfd write_buffer (returned k)
              ∷ io.trace;
        }

        answered :
            ((t : Io W)
              → on_its_way t.world + n * 57 < answer_size
              → Exchanged sockfd before (suc done) t.trace
              → Returns (SucceedsWith P) (converse os n sockfd t))
            → (k : ℕ) (w : W) → on_its_way w ≤ on_its_way io.world + length write_buffer
            → (r : Reply (List ℕ)) (v : W) → ReadsSent on_its_way w (r, v)
            → Returns
                (SucceedsWith P)
                (after_answer os (λ t. converse os n sockfd t) (r, read_back k w r v))
        answered next k w low (failed x) v less = tt
        answered next k w low (returned bytes) v less =
            rw (print_answer_ok bytes (omega (arith, length-write_buffer))) (
              next (read_back k w (returned bytes) v) (omega (arith, length-write_buffer))
                (one_exchange k bytes talk))

        written :
            ((t : Io W)
              → on_its_way t.world + n * 57 < answer_size
              → Exchanged sockfd before (suc done) t.trace
              → Returns (SucceedsWith P) (converse os n sockfd t))
            → (r : Reply ℕ) (w : W) → on_its_way w ≤ on_its_way io.world + length write_buffer
            → Returns
                (SucceedsWith P)
                (after_message os (λ t. converse os n sockfd t) sockfd (r, wrote r w))
        written next (failed x) w low = tt
        written next (returned k) w low =
            let (r, v) = os.read w sockfd answer_size in
            answered next k w low r v (echo.reads_sent w sockfd answer_size)

  -- Against an echo server, with fewer than 454 bytes on their way when it starts, the echo client
  -- ends and never prints what lies behind its buffer of 1024 bytes. If it ends with success, it
  -- has called `write` with its message ten times, and `read` after each, on the one connection
  -- that it has made to the host and the port of its command line, and none of these calls has
  -- failed, though a `write` may have taken only a part and a `read` may have found nothing; or
  -- there was no such host. If it ends with a failure, its last call has failed.
  pub echo_client_main-HasTalked :
      (atoi : String → ℤ) (argv : List String) (io : Io W)
      → on_its_way io.world < 454
      → Returns
          (SucceedsWith (HasTalked (to_port (port_number atoi argv)) (host_argument argv) io.trace))
          (echo_client_main os atoi argv io)
  unfolding echo_client_main
  echo_client_main-HasTalked atoi argv io few =
      let (r, w) = os.socket io.world af_inet sock_stream 0 in
      opened r w (echo.socket_silent io.world af_inet sock_stream 0)
    where
      port : ℕ
      port = to_port (port_number atoi argv)

      host : String
      host = host_argument argv

      with_socket : Reply ℕ → W → Io W
      with_socket r w = record {
        world = w;
        errno = errno_after io.errno r;
        trace = socket_call af_inet sock_stream 0 r ∷ io.trace;
      }

      with_host : ℕ → Option ℕ → W → Io W
      with_host n h v = record {
        world = v;
        errno = io.errno;
        trace = host_call host h ∷ socket_call af_inet sock_stream 0 (returned n) ∷ io.trace;
      }

      connected : ℕ → ℕ → Reply (Unit {0}) → W → Io W
      connected n h r u = record {
        world = u;
        errno = errno_after io.errno r;
        trace =
            connect_call (pos n) h port r
            ∷ host_call host (some h)
            ∷ socket_call af_inet sock_stream 0 (returned n)
            ∷ io.trace;
      }

      linked :
          (n h : ℕ) (r : Reply (Unit {0})) (u : W)
          → on_its_way u < 454
          → Returns
              (SucceedsWith (HasTalked port host io.trace))
              (after_connect os (pos n) (r, connected n h r u))
      linked n h (failed x) u low = tt
      linked n h (returned x) u low =
          converse-Talked (pos n)
            (connect_call (pos n) h port (returned tt)
              ∷ host_call host (some h)
              ∷ socket_call af_inet sock_stream 0 (returned n)
              ∷ io.trace)
            (HasTalked port host io.trace) (λ t k. inl (n, (h, k))) 0 10
            (connected n h (returned x) u) (omega arith) (omega arith) nothing_yet

      found :
          (n : ℕ) (h : Option ℕ) (v : W)
          → on_its_way v < 454
          → Returns
              (SucceedsWith (HasTalked port host io.trace))
              (host_found os port (pos n) (h, with_host n h v))
      found n none v low = inr (n, refl)
      found n (some h) v low =
          let (r, u) = os.connect v (pos n) h port in
          linked n h r u (omega (arith, echo.connect_silent v (pos n) h port))

      opened :
          (r : Reply ℕ) (w : W)
          → on_its_way w ≤ on_its_way io.world
          → Returns
              (SucceedsWith (HasTalked port host io.trace))
              (socket_opened os port host (r, with_socket r w))
      opened (failed x) w low = tt
      opened (returned n) w low =
          let (h, v) = os.gethostbyname w host in
          found n h v (omega (arith, echo.host_silent w host))
