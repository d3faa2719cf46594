-- ===== src/Clients/PingPong/Turns.antt =====
-- What the eleven threads do together, whoever takes a turn.
use Prim.Native.String.{String}
use linux_tcp_servers.Common.{
  ℕ, ℤ, ◌≡◌, refl, sym, ◌∙◌, subst, if_rule, List, [], ◌∷◌, length, Option, none, some,
}
use linux_tcp_servers.Os.{Os, Io, Call, host_call}
use linux_tcp_servers.Arguments.{get_elem?}
use linux_tcp_servers.Blocking.{Exit, running, success, failure}
use linux_tcp_servers.Clients.{port_number, host_argument, to_port}
use linux_tcp_servers.Clients.PingPong.{
  num_threads, exit_success, exit_failure, PingThread, opening, connecting, writing, closing,
  exiting, left, next_call, Threads, at_work, exited, set_elem, started_threads, all_left,
  turn_done, turn_of, take_turns, join_all, multi_client_main,
}
use linux_tcp_servers.Clients.PingPong.Histories.{Fails, Part, Tried, Merged, nothing_yet, one_call}
use linux_tcp_servers.Clients.PingPong.Elems.{unchanged, length-set_elem}
use linux_tcp_servers.Clients.PingPong.Together.{
  Mixture, Completes, AllDid, history_of, set_elem-AllDid, AllDid-Tried, all_left-Completes,
  started_with,
}
use linux_tcp_servers.Clients.PingPong.Works.{
  gave_up, Did, no_host, OneMore, Calls, next_call-OneMore,
}

-- One of the threads has made a part of its calls, and then one that has failed.
pub record OneBroken (server : Option ℕ) (port : ℕ) (before t : List Call) : Type 0 where
  pub mixture : Mixture (Tried server port) before t
  pub thread : ℕ
  pub call : Call
  pub earlier : List Call
  pub is_last : get_elem? mixture.histories thread ≡ some (call ∷ earlier)
  pub fails : Fails call
  pub part : Part server port earlier

abbrev pub HasPinged : {W : Type 0} → Option ℕ → ℕ → List Call → Exit W → Type 0
HasPinged server port before (running io) = Mixture (Tried server port) before io.trace
HasPinged server port before (success io) = Mixture (Completes server port) before io.trace
HasPinged server port before (failure io) = OneBroken server port before io.trace

module _ {W : Type 0} (os : Os W) (server : Option ℕ) (port : ℕ) (before : List Call) where
  -- The threads at work, with what each of them has called.
  record Works (threads : List PingThread) (io : Io W) : Type 0 where
    histories : List (List Call)
    eleven : length histories ≡ 11
    merged : Merged before histories io.trace
    each : AllDid server port threads histories

  abbrev Stands : Threads W → Type 0
  Stands (at_work threads io) = Works threads io
  Stands (exited e) = HasPinged server port before e

  Works-Mixture :
      (threads : List PingThread) (io : Io W)
      → Works threads io
      → Mixture (Tried server port) before io.trace
  Works-Mixture threads io w = record {
    histories = w.histories;
    eleven = w.eleven;
    merged = w.merged;
    each = AllDid-Tried server port threads w.histories w.each;
  }

  turn_done-Works :
      (threads : List PingThread) (k : ℕ) (io : Io W) (h : List Call) (w : Works threads io)
      → get_elem? w.histories k ≡ some h
      → (x : PingThread × Io W) → OneMore os server port h io x
      → Stands (turn_done os port server threads k x)
  turn_done-Works threads k io h w e (thread, t) (c, (called, did)) = record {
    histories = set_elem w.histories k (c ∷ h);
    eleven = length-set_elem w.histories k (c ∷ h) ∙ w.eleven;
    merged =
        subst (Merged before (set_elem w.histories k (c ∷ h))) (sym called)
          (one_call k c h e w.merged);
    each = set_elem-AllDid server port threads w.histories k thread (c ∷ h) w.each did;
  }

  calling :
      (threads : List PingThread) (k : ℕ) (io : Io W) (thread : PingThread)
      → Works threads io
      → Calls os server port thread
      → get_elem? threads k ≡ some thread
      → Stands (turn_done os port server threads k (next_call os port server thread io))
  calling threads k io thread w c e =
      let (h, (f, did)) = history_of server port threads w.histories k thread w.each e in
      turn_done-Works threads k io h w f (next_call os port server thread io)
        (next_call-OneMore os server port io c did)

  no_success :
      (s : Option ℕ) (t : List Call)
      → s ≡ none
      → Mixture (Tried s port) before t
      → Mixture (Completes s port) before t
  no_success none t e h = h
  no_success (some host) t e h = absurd cc

  gone_without : {h : List Call} → Did server port (exiting exit_success) h → server ≡ none
  gone_without (no_host n sfd low e r) = e

  gave_up-OneBroken :
      {h : List Call} (threads : List PingThread) (k : ℕ) (io : Io W) (w : Works threads io)
      → get_elem? w.histories k ≡ some h
      → Did server port (exiting exit_failure) h
      → OneBroken server port before io.trace
  gave_up-OneBroken threads k io w e (gave_up c {h} f p) = record {
    mixture = record {
      histories = w.histories;
      eleven = w.eleven;
      merged = w.merged;
      each = AllDid-Tried server port threads w.histories w.each;
    };
    thread = k;
    call = c;
    earlier = h;
    is_last = e;
    fails = f;
    part = p;
  }

  turn_of-Stands :
      (threads : List PingThread) (k : ℕ) (io : Io W) (o : Option PingThread)
      → get_elem? threads k ≡ o
      → Works threads io
      → Stands (turn_of os port server threads k io o)
  unfolding next_call
  turn_of-Stands threads k io none e w = w
  turn_of-Stands threads k io (some (exiting exit_success)) e w =
      let (h, (f, did)) =
        history_of server port threads w.histories k (exiting exit_success) w.each e in
      no_success server io.trace (gone_without did) (Works-Mixture threads io w)
  turn_of-Stands threads k io (some (exiting exit_failure)) e w =
      let (h, (f, did)) =
        history_of server port threads w.histories k (exiting exit_failure) w.each e in
      gave_up-OneBroken threads k io w f did
  turn_of-Stands threads k io (some (opening i)) e w = calling threads k io (opening i) w tt e
  turn_of-Stands threads k io (some (connecting i host n)) e w =
      calling threads k io (connecting i host n) w tt e
  turn_of-Stands threads k io (some (writing i n j)) e w =
      calling threads k io (writing i n j) w tt e
  turn_of-Stands threads k io (some (closing i n)) e w = calling threads k io (closing i n) w tt e
  turn_of-Stands threads k io (some left) e w =
      subst (λ l. Works l io) (sym (unchanged threads k left e)) w

  take_turns-Stands :
      (schedule : List ℕ) (s : Threads W) → Stands s → Stands (take_turns os port server schedule s)
  unfolding take_turns
  take_turns-Stands [] s h = h
  take_turns-Stands (k ∷ schedule) (exited e) h = h
  take_turns-Stands (k ∷ schedule) (at_work threads io) h =
      take_turns-Stands schedule (turn_of os port server threads k io (get_elem? threads k))
        (turn_of-Stands threads k io (get_elem? threads k) refl h)

  joined-HasPinged : (s : Threads W) → Stands s → HasPinged server port before (join_all os s)
  joined-HasPinged (exited e) h = h
  joined-HasPinged (at_work threads io) w =
      if_rule (HasPinged server port before) (all_left threads)
        (λ e. record {
          histories = w.histories;
          eleven = w.eleven;
          merged = w.merged;
          each = all_left-Completes server port threads w.histories e w.each;
        })
        (λ e. Works-Mixture threads io w)

-- Whatever turns the threads take, call by call: the calls of the process are a mixture of those of
-- eleven threads, and each thread has made, in their order, a part of the calls of four connections
-- to the host that was found, and then perhaps one call that has failed. A connection carries ten
-- messages with its number, and is closed. If the process ends with success, and there is such a
-- host, each thread has made its four connections. If the process ends with a failure, a call of
-- one of them has failed.
pub multi_client_main-HasPinged :
    {W : Type 0} (os : Os W) (atoi : String → ℤ) (argv : List String) (schedule : List ℕ)
    (io : Io W)
    → HasPinged
        (os.gethostbyname io.world (host_argument argv)).0
        (to_port (port_number atoi argv))
        (host_call (host_argument argv) (os.gethostbyname io.world (host_argument argv)).0
          ∷ io.trace)
        (multi_client_main os atoi argv schedule io)
unfolding multi_client_main
multi_client_main-HasPinged {W} os atoi argv schedule io =
    let (server, w) = os.gethostbyname io.world (host_argument argv) in
    let port = to_port (port_number atoi argv) in
    let calls = host_call (host_argument argv) server ∷ io.trace in
    let t : Io W = record { world = w; errno = io.errno; trace = calls } in
    let (hs, (size, (empty, did))) = started_with server port num_threads in
    let start : Threads W = at_work (started_threads num_threads) t in
    joined-HasPinged os server port calls (take_turns os port server schedule start) (
      take_turns-Stands os server port calls schedule start
        (record { histories = hs; eleven = size; merged = nothing_yet empty; each = did }))
