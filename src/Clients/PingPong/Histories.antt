-- ===== src/Clients/PingPong/Histories.antt =====
-- What a thread of the multi client may have called so far, and how the calls of several threads mix.
use linux_tcp_servers.Common.{ℕ, suc, ℤ, pos, ◌≤◌, ◌≡◌, List, [], ◌∷◌, Option, some}
use linux_tcp_servers.Os.{Call, write_call, connect_call, socket_call, close_call, returned, failed}
use linux_tcp_servers.Arguments.{get_elem?}
use linux_tcp_servers.Clients.{af_inet, sock_stream}
use linux_tcp_servers.Clients.PingPong.{ping_pong, set_elem}

-- So many messages written on a connection, after the calls of `before`.
pub data Pinged (sockfd : ℤ) (msg : List ℕ) (before : List Call) : ℕ → List Call → Type 0 where
  no_ping : Pinged sockfd msg before 0 before
  one_ping :
      (sent_no : ℕ) {n : ℕ} {t : List Call}
      → Pinged sockfd msg before n t
      → Pinged sockfd msg before (suc n) (write_call sockfd msg (returned sent_no) ∷ t)

abbrev pub with_socket : ℕ → List Call → List Call
with_socket sfd t = socket_call af_inet sock_stream 0 (returned sfd) ∷ t

abbrev pub linked : ℕ → ℕ → ℕ → List Call → List Call
linked host port sfd t = connect_call (pos sfd) host port (returned tt) ∷ with_socket sfd t

-- The first so many connections, one after the other: each is made to the host that was found,
-- carries ten messages with its number, and is closed.
pub data Run (server : Option ℕ) (port : ℕ) : ℕ → List Call → Type 0 where
  no_run : Run server port 0 []
  one_run :
      (host sfd : ℕ) {n : ℕ} {t u : List Call}
      → server ≡ some host
      → Run server port n t
      → Pinged (pos sfd) (ping_pong (suc n)) (linked host port sfd t) 10 u
      → Run server port (suc n) (close_call (pos sfd) ∷ u)

-- A part of four connections.
pub data Part (server : Option ℕ) (port : ℕ) : List Call → Type 0 where
  between : (n : ℕ) {t : List Call} → n ≤ 4 → Run server port n t → Part server port t
  socket_open :
      (n sfd : ℕ) {t : List Call}
      → n ≤ 3
      → Run server port n t
      → Part server port (with_socket sfd t)
  talking :
      (n host sfd j : ℕ) {t u : List Call}
      → n ≤ 3
      → j ≤ 10
      → server ≡ some host
      → Run server port n t
      → Pinged (pos sfd) (ping_pong (suc n)) (linked host port sfd t) j u
      → Part server port u

abbrev pub Fails : Call → Type 0
Fails (socket_call f t p (failed e)) = Unit
Fails (connect_call sfd host port (failed e)) = Unit
Fails (write_call sfd bytes (failed e)) = Unit
Fails c = ⊥

-- A part of four connections, and then perhaps a call that fails.
pub data Tried (server : Option ℕ) (port : ℕ) : List Call → Type 0 where
  unbroken : {t : List Call} → Part server port t → Tried server port t
  broken : (c : Call) {t : List Call} → Fails c → Part server port t → Tried server port (c ∷ t)

abbrev pub AllEmpty : List (List Call) → Type 0
AllEmpty [] = Unit
AllEmpty (h ∷ hs) = (h ≡ []) × AllEmpty hs

-- The calls after those of `before` are a mixture of the given histories, each in its own order.
pub data Merged (before : List Call) : List (List Call) → List Call → Type 0 where
  nothing_yet : {hs : List (List Call)} → AllEmpty hs → Merged before hs before
  one_call :
      (k : ℕ) (c : Call) (h : List Call) {hs : List (List Call)} {t : List Call}
      → get_elem? hs k ≡ some h
      → Merged before hs t
      → Merged before (set_elem hs k (c ∷ h)) (c ∷ t)
