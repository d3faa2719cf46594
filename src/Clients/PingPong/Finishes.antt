-- ===== src/Clients/PingPong/Finishes.antt =====
-- The end of the multi client, where every thread gets its turns.
use Prim.Native.String.{String}
use linux_tcp_servers.Common.{
  ℕ, zero, suc, ℤ, pos, ◌+◌, ◌-◌, ◌*◌, ◌<◌, ◌≤◌, ◌≡◌, ◌≢◌, refl, sym, ◌∙◌, ap, subst, inl, inr, leb,
  ◌==◌, ==_iff, Bool-cases, if◌then◌else◌, if_rule, true, false, List, [], ◌∷◌, Option, none, some,
  arith,
}
use linux_tcp_servers.Os.{Os, Io, Reply, returned, failed, host_call}
use linux_tcp_servers.Arguments.{get_elem?}
use linux_tcp_servers.Blocking.{Exit, running, success, failure}
use linux_tcp_servers.Clients.{af_inet, sock_stream, port_number, host_argument, to_port}
use linux_tcp_servers.Clients.PingPong.{
  num_threads, exit_success, exit_failure, PingThread, opening, connecting, writing, closing,
  exiting, left, at_connection, at_ping, opened, connected, written, next_call, Threads, at_work,
  exited, set_elem, started_threads, has_left, all_left, turn_of, take_turns, join_all,
  multi_client_main, ping_pong,
}
use linux_tcp_servers.Clients.PingPong.Elems.{set_elem_cases}

false_is_not_true : false ≢ true
false_is_not_true = cc

-- How often `k` has a turn.
abbrev pub turns_for : ℕ → List ℕ → ℕ
turns_for k [] = 0
turns_for k (j ∷ schedule) = (if k == j then 1 else 0) + turns_for k schedule

abbrev pub HasEnded : {W : Type 0} → Exit W → Type 0
HasEnded (running io) = ⊥
HasEnded (success io) = Unit
HasEnded (failure io) = Unit

-- More turns than a thread at this place can use.
abbrev due : PingThread → ℕ
due (opening i) = 13 * (4 - i) + 13
due (connecting i host sfd) = 13 * (4 - i) + 12
due (writing i sfd j) = 13 * (4 - i) + 2 + (10 - j)
due (closing i sfd) = 13 * (4 - i) + 1
due (exiting code) = 1
due left = 0

-- With the turns that are left every thread leaves its loop.
abbrev Suffices : List PingThread → List ℕ → Type 0
Suffices threads schedule =
    (k : ℕ) (thread : PingThread)
    → get_elem? threads k ≡ some thread
    → due thread ≤ turns_for k schedule

due-at_connection : (i : ℕ) → due (at_connection (suc i)) ≤ 13 * (4 - i)
due-at_connection i =
    if_rule (λ thread. due thread ≤ 13 * (4 - i)) (leb (suc i) 4) (λ e. ground arith)
      (λ e. ground arith)

due-at_ping : (i sfd j : ℕ) → due (at_ping i sfd (suc j)) ≤ 13 * (4 - i) + 1 + (10 - j)
due-at_ping i sfd j =
    if_rule (λ thread. due thread ≤ 13 * (4 - i) + 1 + (10 - j)) (leb (suc j) 10)
      (λ e. ground arith) (λ e. ground arith)

due-opened : (s : Option ℕ) (i : ℕ) (r : Reply ℕ) → due (opened s i r) < 13 * (4 - i) + 13
due-opened s i (failed e) = omega arith
due-opened none i (returned n) = omega arith
due-opened (some host) i (returned n) = omega arith

due-connected : (i sfd : ℕ) (r : Reply (Unit {0})) → due (connected i sfd r) < 13 * (4 - i) + 12
due-connected i sfd (failed e) = omega arith
due-connected i sfd (returned u) = omega (arith, due-at_ping i sfd 0)

due-written : (i sfd j : ℕ) (r : Reply ℕ) → due (written i sfd j r) < 13 * (4 - i) + 2 + (10 - j)
due-written i sfd j (failed e) = omega arith
due-written i sfd j (returned n) = omega (arith, due-at_ping i sfd j)

no_turns_left : (thread : PingThread) → due thread ≤ 0 → has_left thread ≡ true
no_turns_left (opening i) h = absurd (omega arith)
no_turns_left (connecting i host sfd) h = absurd (omega arith)
no_turns_left (writing i sfd j) h = absurd (omega arith)
no_turns_left (closing i sfd) h = absurd (omega arith)
no_turns_left (exiting code) h = absurd (omega arith)
no_turns_left left h = refl

all_left_lem : (threads : List PingThread) → Suffices threads [] → all_left threads ≡ true
unfolding all_left
all_left_lem [] h = refl
all_left_lem (thread ∷ threads) h =
    rw (no_turns_left thread (h 0 thread refl), all_left_lem threads (λ k x e. h (suc k) x e)) refl

some_is_not_none : (x : PingThread) → some x ≢ none
some_is_not_none x = cc

different : (k j : ℕ) → (k == j) ≡ false → k ≢ j
different k j e z = false_is_not_true (sym e ∙ (==_iff k j).1 z)

-- A turn of `k` is one turn for `k`, and none for another.
own_turn : (k : ℕ) (schedule : List ℕ) → turns_for k (k ∷ schedule) ≡ suc (turns_for k schedule)
own_turn k schedule = rw ((==_iff k k).1 refl) (omega arith)

other_turn :
    (j k : ℕ) (schedule : List ℕ) → k ≢ j → turns_for j (k ∷ schedule) ≡ turns_for j schedule
other_turn j k schedule h = elim (Bool-cases (j == k)) [
  | inl same ↦ absurd (h (sym ((==_iff j k).0 same)))
  | inr other ↦ rw other (omega arith)
]

module _ {W : Type 0} (os : Os W) (port : ℕ) (server : Option ℕ) where
  abbrev Finishes : List ℕ → Threads W → Type 0
  Finishes schedule (at_work threads io) = Suffices threads schedule
  Finishes schedule (exited e) = HasEnded e

  after_turn :
      (threads : List PingThread) (k : ℕ) (thread next : PingThread) (schedule : List ℕ)
      → get_elem? threads k ≡ some thread
      → due next ≤ due thread - 1
      → Suffices threads (k ∷ schedule)
      → Suffices (set_elem threads k next) schedule
  after_turn threads k thread next schedule at less h j x e =
      elim (set_elem_cases threads k j next x e) [
        | inl same ↦
            subst (λ n. due x ≤ turns_for n schedule) same.0
              (subst (λ y. due y ≤ turns_for k schedule) same.1
                (omega (arith, own_turn k schedule, h k thread at, less)))
        | inr other ↦ omega (arith, other_turn j k schedule other.0, h j x other.1)
      ]

  no_turn :
      (threads : List PingThread) (k : ℕ) (schedule : List ℕ)
      → get_elem? threads k ≡ none
      → Suffices threads (k ∷ schedule)
      → Suffices threads schedule
  no_turn threads k schedule nobody h j x e = elim (Bool-cases (k == j)) [
    | inl same ↦
        let k_is_j = (==_iff k j).0 same in
        absurd (some_is_not_none x (sym (ap (λ n. get_elem? threads n) k_is_j ∙ e) ∙ nobody))
    | inr other ↦ omega (arith, other_turn j k schedule (λ z. different k j other z), h j x e)
  ]

  turn_of-Finishes :
      (threads : List PingThread) (k : ℕ) (schedule : List ℕ) (io : Io W) (o : Option PingThread)
      → get_elem? threads k ≡ o
      → Suffices threads (k ∷ schedule)
      → Finishes schedule (turn_of os port server threads k io o)
  unfolding next_call
  turn_of-Finishes threads k schedule io none e h = no_turn threads k schedule e h
  turn_of-Finishes threads k schedule io (some (exiting exit_success)) e h = tt
  turn_of-Finishes threads k schedule io (some (exiting exit_failure)) e h = tt
  turn_of-Finishes threads k schedule io (some (opening i)) e h =
      let less = due-opened server i (os.socket io.world af_inet sock_stream 0).0 in
      after_turn threads k (opening i) _ schedule e (omega (arith, less)) h
  turn_of-Finishes threads k schedule io (some (connecting i host sfd)) e h =
      let less = due-connected i sfd (os.connect io.world (pos sfd) host port).0 in
      after_turn threads k (connecting i host sfd) _ schedule e (omega (arith, less)) h
  turn_of-Finishes threads k schedule io (some (writing i sfd j)) e h =
      let less = due-written i sfd j (os.write io.world (pos sfd) (ping_pong i)).0 in
      after_turn threads k (writing i sfd j) _ schedule e (omega (arith, less)) h
  turn_of-Finishes threads k schedule io (some (closing i sfd)) e h =
      after_turn threads k (closing i sfd) _ schedule e (omega (arith, due-at_connection i)) h
  turn_of-Finishes threads k schedule io (some left) e h =
      after_turn threads k left left schedule e (omega arith) h

  take_turns-Finishes :
      (schedule : List ℕ) (s : Threads W)
      → Finishes schedule s
      → Finishes [] (take_turns os port server schedule s)
  unfolding take_turns
  take_turns-Finishes [] s h = h
  take_turns-Finishes (k ∷ schedule) (exited e) h = h
  take_turns-Finishes (k ∷ schedule) (at_work threads io) h =
      take_turns-Finishes schedule (turn_of os port server threads k io (get_elem? threads k))
        (turn_of-Finishes threads k schedule io (get_elem? threads k) refl h)

  joined-HasEnded : (s : Threads W) → Finishes [] s → HasEnded (join_all os s)
  joined-HasEnded (exited e) h = h
  joined-HasEnded (at_work threads io) h = rw (all_left_lem threads h) tt

started_thread :
    (n k : ℕ) (thread : PingThread)
    → get_elem? (started_threads n) k ≡ some thread
    → (k ≤ n) × (thread ≡ opening 1)
unfolding started_threads
started_thread zero zero thread e = (omega arith, cc)
started_thread zero (suc k) thread e = absurd cc
started_thread (suc n) zero thread e = (omega arith, cc)
started_thread (suc n) (suc k) thread e =
    let (low, first) = started_thread n k thread e in (omega arith, first)

-- If each of the eleven threads gets fifty-two turns or more, in whatever order, the multi client ends.
pub multi_client_main-HasEnded :
    {W : Type 0} (os : Os W) (atoi : String → ℤ) (argv : List String) (schedule : List ℕ)
    (io : Io W)
    → ((k : ℕ) → k ≤ num_threads → 52 ≤ turns_for k schedule)
    → HasEnded (multi_client_main os atoi argv schedule io)
unfolding multi_client_main
multi_client_main-HasEnded {W} os atoi argv schedule io fair =
    let (h, w) = os.gethostbyname io.world (host_argument argv) in
    let port = to_port (port_number atoi argv) in
    let t : Io W = record {
      world = w;
      errno = io.errno;
      trace = host_call (host_argument argv) h ∷ io.trace;
    } in
    joined-HasEnded os port h
      (take_turns os port h schedule (at_work (started_threads num_threads) t))
      (take_turns-Finishes os port h schedule (at_work (started_threads num_threads) t)
        (λ k thread e.
          let (low, first) = started_thread num_threads k thread e in
          subst (λ x. due x ≤ turns_for k schedule) (sym first) (fair k low)))
