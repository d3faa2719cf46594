-- ===== src/Clients/PingPong/Owners.antt =====
-- Each thread of the multi client has its socket to itself.
use linux_tcp_servers.Common.{
  ℕ, zero, suc, ℤ, pos, ◌≡◌, ◌≢◌, refl, sym, ◌∙◌, ap, subst, inl, inr, leb, if_rule, List, [], ◌∷◌,
  Option, none, some, ◌==◌, ==_iff, Bool-cases, true, false,
}
use linux_tcp_servers.Os.{Os, Io, Reply, returned, failed}
use linux_tcp_servers.Arguments.{get_elem?}
use linux_tcp_servers.Clients.{af_inet, sock_stream}
use linux_tcp_servers.Clients.PingPong.{
  num_threads, ping_pong, exit_success, exit_failure, PingThread, opening, connecting, writing,
  closing, exiting, left, at_connection, at_ping, opened, connected, written, next_call, Threads,
  at_work, exited, started_threads, turn_done, turn_of, take_turns,
}
use linux_tcp_servers.Clients.PingPong.Sockets.{
  NewSocket, SocketLaws, socket_of, OwnSockets, Moves, next-OwnSockets,
}

not_both : true ≢ false
not_both = cc

socket_of-at_connection : (i n : ℕ) → socket_of (at_connection i) ≢ some n
unfolding socket_of
socket_of-at_connection i n =
    if_rule (λ thread. socket_of thread ≢ some n) (leb i 4) (λ e. cc) (λ e. cc)

socket_of-at_ping : (i sfd j : ℕ) → socket_of (at_ping i sfd j) ≡ some sfd
unfolding socket_of
socket_of-at_ping i sfd j =
    if_rule (λ thread. socket_of thread ≡ some sfd) (leb j 10) (λ e. refl) (λ e. refl)

module _ {W : Type 0} (os : Os W) (is_open : W → ℤ → Type 0) (laws : SocketLaws os is_open)
    (port : ℕ) (server : Option ℕ) where
  -- A call that closes nothing and goes on with the socket it had, or with none.
  same_socket :
      (w v : W) (thread next : PingThread)
      → ((k : ℤ) → is_open w k → is_open v k)
      → ((n : ℕ) → socket_of next ≡ some n → socket_of thread ≡ some n)
      → ((n : ℕ) → socket_of thread ≡ some n → is_open w (pos n))
      → Moves is_open w v thread next
  same_socket w v thread next keep same open_before = record {
    next_open = λ n e. keep (pos n) (open_before n (same n e));
    own_or_new = λ n e. inl (same n e);
    others_stay = λ n o. inr (keep (pos n) o);
  }

  opened-Moves :
      (i : ℕ) (s : Option ℕ) (w v : W) (r : Reply ℕ)
      → NewSocket os is_open w (r, v)
      → Moves is_open w v (opening i) (opened s i r)
  unfolding socket_of
  opened-Moves i s w v (failed x) keep =
      same_socket w v (opening i) (exiting exit_failure) keep (λ n e. absurd cc) (λ n e. absurd cc)
  opened-Moves i none w v (returned sfd) (new, keep) =
      same_socket w v (opening i) (exiting exit_success) keep (λ n e. absurd cc) (λ n e. absurd cc)
  opened-Moves i (some host) w v (returned sfd) (new, keep) = record {
    next_open = λ n e. let same : sfd ≡ n = cc in subst (λ m. is_open v (pos m)) same new.1;
    own_or_new =
        λ n e. let same : sfd ≡ n = cc in inr (subst (λ m. is_open w (pos m) → ⊥) same new.0);
    others_stay = λ n o. inr (keep (pos n) o);
  }

  goes_on :
      (thread : PingThread) (i sfd j n : ℕ)
      → socket_of thread ≡ some sfd
      → socket_of (at_ping i sfd j) ≡ some n
      → socket_of thread ≡ some n
  goes_on thread i sfd j n e f = e ∙ (sym (socket_of-at_ping i sfd j) ∙ f)

  connected-same :
      (i host sfd : ℕ) (r : Reply (Unit {0})) (n : ℕ)
      → socket_of (connected i sfd r) ≡ some n
      → socket_of (connecting i host sfd) ≡ some n
  unfolding socket_of
  connected-same i host sfd (failed x) n e = absurd cc
  connected-same i host sfd (returned u) n e = goes_on (connecting i host sfd) i sfd 1 n refl e

  written-same :
      (i sfd j : ℕ) (r : Reply ℕ) (n : ℕ)
      → socket_of (written i sfd j r) ≡ some n
      → socket_of (writing i sfd j) ≡ some n
  unfolding socket_of
  written-same i sfd j (failed x) n e = absurd cc
  written-same i sfd j (returned m) n e = goes_on (writing i sfd j) i sfd (suc j) n refl e

  closed-Moves :
      (i sfd : ℕ) (w : W)
      → Moves is_open w (os.close w (pos sfd)) (closing i sfd) (at_connection (suc i))
  unfolding socket_of
  closed-Moves i sfd w = record {
    next_open = λ n e. absurd (socket_of-at_connection (suc i) n e);
    own_or_new = λ n e. absurd (socket_of-at_connection (suc i) n e);
    others_stay = λ n o. elim (Bool-cases (sfd == n)) [
      | inl same ↦ inl (ap (λ m. some m) ((==_iff sfd n).0 same))
      | inr other ↦ inr (laws.close_keeps w (pos sfd) (pos n) (λ e. different n other e) o)
    ];
  }
    where
      different : (n : ℕ) → (sfd == n) ≡ false → pos n ≢ pos sfd
      different n other e =
          let same : sfd ≡ n = cc in not_both (sym ((==_iff sfd n).1 same) ∙ other)

  next_call-Moves :
      (thread : PingThread) (io : Io W)
      → ((n : ℕ) → socket_of thread ≡ some n → is_open io.world (pos n))
      → Moves is_open io.world
          (next_call os port server thread io).1.world
          thread
          (next_call os port server thread io).0
  unfolding next_call
  next_call-Moves (opening i) io h =
      let (r, v) = os.socket io.world af_inet sock_stream 0 in
      opened-Moves i server io.world v r (laws.new_socket io.world af_inet sock_stream 0)
  next_call-Moves (connecting i host sfd) io h =
      let (r, v) = os.connect io.world (pos sfd) host port in
      same_socket io.world v (connecting i host sfd) (connected i sfd r)
        (laws.connect_keeps io.world (pos sfd) host port) (connected-same i host sfd r) h
  next_call-Moves (writing i sfd j) io h =
      let (r, v) = os.write io.world (pos sfd) (ping_pong i) in
      same_socket io.world v (writing i sfd j) (written i sfd j r)
        (laws.write_keeps io.world (pos sfd) (ping_pong i)) (written-same i sfd j r) h
  next_call-Moves (closing i sfd) io h = closed-Moves i sfd io.world
  next_call-Moves (exiting code) io h =
      same_socket io.world io.world (exiting code) (exiting code) (λ k o. o) (λ n e. e) h
  next_call-Moves left io h = same_socket io.world io.world left left (λ k o. o) (λ n e. e) h

  abbrev pub Owning : Threads W → Type 0
  Owning (at_work threads io) = OwnSockets is_open io.world threads
  Owning (exited e) = Unit

  calling-Owning :
      (threads : List PingThread) (k : ℕ) (io : Io W) (thread : PingThread)
      → get_elem? threads k ≡ some thread
      → OwnSockets is_open io.world threads
      → Owning (turn_done os port server threads k (next_call os port server thread io))
  calling-Owning threads k io thread e h =
      next-OwnSockets is_open io.world _ threads k thread _ e
        (next_call-Moves thread io (λ n u. h.in_use_open k thread n e u)) h

  turn_of-Owning :
      (threads : List PingThread) (k : ℕ) (io : Io W) (o : Option PingThread)
      → get_elem? threads k ≡ o
      → OwnSockets is_open io.world threads
      → Owning (turn_of os port server threads k io o)
  turn_of-Owning threads k io none e h = h
  turn_of-Owning threads k io (some (exiting exit_success)) e h = tt
  turn_of-Owning threads k io (some (exiting exit_failure)) e h = tt
  turn_of-Owning threads k io (some (opening i)) e h = calling-Owning threads k io (opening i) e h
  turn_of-Owning threads k io (some (connecting i host n)) e h =
      calling-Owning threads k io (connecting i host n) e h
  turn_of-Owning threads k io (some (writing i n j)) e h =
      calling-Owning threads k io (writing i n j) e h
  turn_of-Owning threads k io (some (closing i n)) e h =
      calling-Owning threads k io (closing i n) e h
  turn_of-Owning threads k io (some left) e h = calling-Owning threads k io left e h

  take_turns-Owning :
      (schedule : List ℕ) (s : Threads W) → Owning s → Owning (take_turns os port server schedule s)
  unfolding take_turns
  take_turns-Owning [] s h = h
  take_turns-Owning (k ∷ schedule) (exited e) h = h
  take_turns-Owning (k ∷ schedule) (at_work threads io) h =
      take_turns-Owning schedule (turn_of os port server threads k io (get_elem? threads k))
        (turn_of-Owning threads k io (get_elem? threads k) refl h)

  none_at_first :
      (m k n : ℕ) (thread : PingThread)
      → get_elem? (started_threads m) k ≡ some thread
      → socket_of thread ≢ some n
  unfolding started_threads socket_of
  none_at_first zero zero n thread e =
      let same : opening 1 ≡ thread = cc in subst (λ x. socket_of x ≢ some n) same cc
  none_at_first zero (suc k) n thread e = absurd cc
  none_at_first (suc m) zero n thread e =
      let same : opening 1 ≡ thread = cc in subst (λ x. socket_of x ≢ some n) same cc
  none_at_first (suc m) (suc k) n thread e = none_at_first m k n thread e

  -- Whatever turns the threads take: while the process runs, the socket that a thread uses next is
  -- open, and no other thread uses it.
  pub take_turns-OwnSockets :
      (schedule : List ℕ) (io : Io W)
      → Owning (take_turns os port server schedule (at_work (started_threads num_threads) io))
  take_turns-OwnSockets schedule io =
      take_turns-Owning schedule (at_work (started_threads num_threads) io) (record {
        in_use_open = λ k thread n e u. absurd (none_at_first num_threads k n thread e u);
        one_user = λ j k x y n e f u v. absurd (none_at_first num_threads j n x e u);
      })
