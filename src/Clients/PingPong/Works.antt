-- ===== src/Clients/PingPong/Works.antt =====
-- What the threads of the multi client have done, wherever they stand.
use linux_tcp_servers.Common.{
  ℕ, suc, pos, ◌≤◌, ◌≡◌, refl, sym, subst, leb, if_rule, List, ◌∷◌, Option, none, some, arith,
}
use linux_tcp_servers.Os.{
  Os, Io, Call, write_call, connect_call, socket_call, close_call, Reply, returned, failed,
}
use linux_tcp_servers.Clients.{af_inet, sock_stream}
use linux_tcp_servers.Clients.PingPong.{
  ping_pong, exit_success, exit_failure, PingThread, opening, connecting, writing, closing, exiting,
  left, at_connection, at_ping, opened, connected, written, next_call,
}
use linux_tcp_servers.Clients.PingPong.Histories.{
  Pinged, no_ping, one_ping, with_socket, linked, Run, one_run, Part, between, socket_open, talking,
  Fails, Tried, unbroken, broken,
}

module _ (server : Option ℕ) (port : ℕ) where
  -- What a thread has called when it stands there.
  pub data Did : PingThread → List Call → Type 0 where
    may_open : (n : ℕ) {h : List Call} → n ≤ 3 → Run server port n h → Did (opening (suc n)) h
    may_connect :
        (n host sfd : ℕ) {h : List Call}
        → n ≤ 3
        → server ≡ some host
        → Run server port n h
        → Did (connecting (suc n) host sfd) (with_socket sfd h)
    may_write :
        (n host sfd j : ℕ) {h u : List Call}
        → n ≤ 3
        → j ≤ 9
        → server ≡ some host
        → Run server port n h
        → Pinged (pos sfd) (ping_pong (suc n)) (linked host port sfd h) j u
        → Did (writing (suc n) sfd (suc j)) u
    may_close :
        (n host sfd : ℕ) {h u : List Call}
        → n ≤ 3
        → server ≡ some host
        → Run server port n h
        → Pinged (pos sfd) (ping_pong (suc n)) (linked host port sfd h) 10 u
        → Did (closing (suc n) sfd) u
    no_host :
        (n sfd : ℕ) {h : List Call}
        → n ≤ 3
        → server ≡ none
        → Run server port n h
        → Did (exiting exit_success) (with_socket sfd h)
    gave_up :
        (c : Call) {h : List Call}
        → Fails c
        → Part server port h
        → Did (exiting exit_failure) (c ∷ h)
    may_join : {h : List Call} → Run server port 4 h → Did left h

  pub Did-Tried : {thread : PingThread} {h : List Call} → Did thread h → Tried server port h
  Did-Tried (may_open n low r) = unbroken (between n (omega arith) r)
  Did-Tried (may_connect n host sfd low e r) = unbroken (socket_open n sfd low r)
  Did-Tried (may_write n host sfd j low few e r p) =
      unbroken (talking n host sfd j low (omega arith) e r p)
  Did-Tried (may_close n host sfd low e r p) =
      unbroken (talking n host sfd 10 low (omega arith) e r p)
  Did-Tried (no_host n sfd low e r) = unbroken (socket_open n sfd low r)
  Did-Tried (gave_up c f p) = broken c f p
  Did-Tried (may_join r) = unbroken (between 4 (omega arith) r)

  pub at_connection-Did :
      (n : ℕ) (h : List Call) → n ≤ 4 → Run server port n h → Did (at_connection (suc n)) h
  at_connection-Did n h low r =
      if_rule (λ thread. Did thread h) (leb (suc n) 4) (λ e. may_open n (ground arith) r)
        (λ e. may_join (subst (λ k. Run server port k h) (ground arith) r))

  at_ping-Did :
      (n host sfd j : ℕ) (h u : List Call)
      → n ≤ 3
      → j ≤ 10
      → server ≡ some host
      → Run server port n h
      → Pinged (pos sfd) (ping_pong (suc n)) (linked host port sfd h) j u
      → Did (at_ping (suc n) sfd (suc j)) u
  at_ping-Did n host sfd j h u low few e r p =
      if_rule (λ thread. Did thread u) (leb (suc j) 10)
        (λ x. may_write n host sfd j low (ground arith) e r p)
        (λ x. may_close n host sfd low e r (
          subst (λ k. Pinged (pos sfd) (ping_pong (suc n)) (linked host port sfd h) k u)
            (ground arith) p))

module _ {W : Type 0} (os : Os W) (server : Option ℕ) (port : ℕ) where
  -- One call more, of the thread that makes it and of the process.
  abbrev pub OneMore : List Call → Io W → PingThread × Io W → Type 0
  OneMore h io (thread, t) =
      (c : Call) × ((t.trace ≡ c ∷ io.trace) × Did server port thread (c ∷ h))

  opened-Did :
      (n : ℕ) (h : List Call) (s : Option ℕ) (r : Reply ℕ)
      → s ≡ server
      → n ≤ 3
      → Run server port n h
      → Did server port (opened s (suc n) r) (socket_call af_inet sock_stream 0 r ∷ h)
  opened-Did n h s (failed x) e low run = gave_up _ tt (between n (omega arith) run)
  opened-Did n h none (returned sfd) e low run = no_host n sfd low (sym e) run
  opened-Did n h (some host) (returned sfd) e low run = may_connect n host sfd low (sym e) run

  connected-Did :
      (n host sfd : ℕ) (h : List Call) (r : Reply (Unit {0}))
      → server ≡ some host
      → n ≤ 3
      → Run server port n h
      → Did server port
          (connected (suc n) sfd r)
          (connect_call (pos sfd) host port r ∷ with_socket sfd h)
  connected-Did n host sfd h (failed x) e low run = gave_up _ tt (socket_open n sfd low run)
  connected-Did n host sfd h (returned tt) e low run =
      at_ping-Did server port n host sfd 0 h _ low (omega arith) e run no_ping

  written-Did :
      (n host sfd j : ℕ) (h u : List Call) (r : Reply ℕ)
      → server ≡ some host
      → n ≤ 3
      → j ≤ 9
      → Run server port n h
      → Pinged (pos sfd) (ping_pong (suc n)) (linked host port sfd h) j u
      → Did server port
          (written (suc n) sfd (suc j) r)
          (write_call (pos sfd) (ping_pong (suc n)) r ∷ u)
  written-Did n host sfd j h u (failed x) e low few run p =
      gave_up _ tt (talking n host sfd j low (omega arith) e run p)
  written-Did n host sfd j h u (returned k) e low few run p =
      at_ping-Did server port n host sfd (suc j) h _ low (omega arith) e run (one_ping k p)

  abbrev pub Calls : PingThread → Type 0
  Calls (exiting code) = ⊥
  Calls left = ⊥
  Calls thread = Unit

  pub next_call-OneMore :
      {thread : PingThread} {h : List Call} (io : Io W)
      → Calls thread
      → Did server port thread h
      → OneMore h io (next_call os port server thread io)
  unfolding next_call
  next_call-OneMore io c (may_open n {h} low run) =
      let (r, w) = os.socket io.world af_inet sock_stream 0 in
      (socket_call af_inet sock_stream 0 r, (refl, opened-Did n h server r refl low run))
  next_call-OneMore io c (may_connect n host sfd {h} low e run) =
      let (r, w) = os.connect io.world (pos sfd) host port in
      (connect_call (pos sfd) host port r, (refl, connected-Did n host sfd h r e low run))
  next_call-OneMore io c (may_write n host sfd j {h} {u} low few e run p) =
      let (r, w) = os.write io.world (pos sfd) (ping_pong (suc n)) in
      (
        write_call (pos sfd) (ping_pong (suc n)) r,
        (refl, written-Did n host sfd j h u r e low few run p),
      )
  next_call-OneMore io c (may_close n host sfd {h} {u} low e run p) = (
    close_call (pos sfd),
    (refl, at_connection-Did server port (suc n) _ (omega arith) (one_run host sfd e run p)),
  )
  next_call-OneMore io c (no_host n sfd low e run) = absurd c
  next_call-OneMore io c (gave_up x f p) = absurd c
  next_call-OneMore io c (may_join r) = absurd c
