-- ===== src/Clients/PingPong/Together.antt =====
-- The histories of several threads of the multi client.
use linux_tcp_servers.Common.{
  ℕ, zero, suc, ◌≡◌, refl, subst, ◌&&◌, Bool, true, false, List, [], ◌∷◌, length, Option, none,
  some, arith,
}
use linux_tcp_servers.Os.{Call}
use linux_tcp_servers.Arguments.{get_elem?}
use linux_tcp_servers.Clients.PingPong.{PingThread, set_elem, started_threads, all_left, has_left}
use linux_tcp_servers.Clients.PingPong.Histories.{Run, no_run, Tried, AllEmpty, Merged}
use linux_tcp_servers.Clients.PingPong.Works.{Did, Did-Tried, may_join, at_connection-Did}

-- All of the histories satisfy `P`.
abbrev pub AllHistories : (List Call → Type 0) → List (List Call) → Type 0
AllHistories P [] = Unit
AllHistories P (h ∷ hs) = P h × AllHistories P hs

-- The calls after those of `before` are those of eleven threads, of which each has done what `P` says.
pub record Mixture (P : List Call → Type 0) (before t : List Call) : Type 0 where
  pub histories : List (List Call)
  pub eleven : length histories ≡ 11
  pub merged : Merged before histories t
  pub each : AllHistories P histories

abbrev pub Completes : Option ℕ → ℕ → List Call → Type 0
Completes (some host) port = Run (some host) port 4
Completes none port = Tried none port

module _ (server : Option ℕ) (port : ℕ) where
  abbrev pub AllDid : List PingThread → List (List Call) → Type 0
  AllDid [] [] = Unit
  AllDid [] (h ∷ hs) = ⊥
  AllDid (thread ∷ threads) [] = ⊥
  AllDid (thread ∷ threads) (h ∷ hs) = Did server port thread h × AllDid threads hs

  pub history_of :
      (threads : List PingThread) (hs : List (List Call)) (k : ℕ) (thread : PingThread)
      → AllDid threads hs
      → get_elem? threads k ≡ some thread
      → (h : List Call) × ((get_elem? hs k ≡ some h) × Did server port thread h)
  history_of [] hs k thread d e = absurd cc
  history_of (x ∷ threads) [] k thread d e = absurd d
  history_of (x ∷ threads) (h ∷ hs) zero thread d e =
      let same : x ≡ thread = cc in (h, (refl, subst (λ z. Did server port z h) same d.0))
  history_of (x ∷ threads) (h ∷ hs) (suc k) thread d e = history_of threads hs k thread d.1 e

  pub set_elem-AllDid :
      (threads : List PingThread) (hs : List (List Call)) (k : ℕ) (thread : PingThread)
      (h : List Call)
      → AllDid threads hs
      → Did server port thread h
      → AllDid (set_elem threads k thread) (set_elem hs k h)
  set_elem-AllDid [] [] k thread h d x = tt
  set_elem-AllDid [] (g ∷ hs) k thread h d x = absurd d
  set_elem-AllDid (y ∷ threads) [] k thread h d x = absurd d
  set_elem-AllDid (y ∷ threads) (g ∷ hs) zero thread h d x = (x, d.1)
  set_elem-AllDid (y ∷ threads) (g ∷ hs) (suc k) thread h d x =
      (d.0, set_elem-AllDid threads hs k thread h d.1 x)

  pub AllDid-Tried :
      (threads : List PingThread) (hs : List (List Call))
      → AllDid threads hs
      → AllHistories (Tried server port) hs
  AllDid-Tried [] [] d = tt
  AllDid-Tried [] (h ∷ hs) d = absurd d
  AllDid-Tried (x ∷ threads) [] d = absurd d
  AllDid-Tried (x ∷ threads) (h ∷ hs) d = (Did-Tried server port d.0, AllDid-Tried threads hs d.1)

  left_Completes : (s : Option ℕ) (h : List Call) → Run s port 4 h → Completes s port h
  left_Completes none h r = Did-Tried none port (may_join r)
  left_Completes (some host) h r = r

  joined_Completes :
      {thread : PingThread} {h : List Call}
      → has_left thread ≡ true
      → Did server port thread h
      → Completes server port h
  joined_Completes e (may_join {h} r) = left_Completes server h r
  joined_Completes e _ = absurd cc

  both : (a b : Bool) → (a && b) ≡ true → (a ≡ true) × (b ≡ true)
  both true b e = (refl, e)
  both false b e = absurd cc

  pub all_left-Completes :
      (threads : List PingThread) (hs : List (List Call))
      → all_left threads ≡ true
      → AllDid threads hs
      → AllHistories (Completes server port) hs
  unfolding all_left
  all_left-Completes [] [] e d = tt
  all_left-Completes [] (h ∷ hs) e d = absurd d
  all_left-Completes (x ∷ threads) [] e d = absurd d
  all_left-Completes (x ∷ threads) (h ∷ hs) e d =
      let (here, rest) = both (has_left x) (all_left threads) e in
      (joined_Completes here d.0, all_left-Completes threads hs rest d.1)

-- Before the first turn nobody has called anything.
pub started_with :
    (server : Option ℕ) (port n : ℕ)
    → (hs : List (List Call)) × ((length hs ≡ suc n)
        × (AllEmpty hs × AllDid server port (started_threads n) hs))
unfolding started_threads
started_with server port zero =
    let did = at_connection-Did server port 0 [] (omega arith) no_run in
    ([] ∷ [], (refl, ((refl, tt), (did, tt))))
started_with server port (suc n) =
    let (hs, (size, (empty, rest))) = started_with server port n in
    let did = at_connection-Did server port 0 [] (omega arith) no_run in
    ([] ∷ hs, (omega (arith, size), ((refl, empty), (did, rest))))
