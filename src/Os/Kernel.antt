-- ===== src/Os/Kernel.antt =====
-- What Linux promises of descriptors and of epoll, over three views of its state: which descriptors
-- are open, with which data events may come, and how many connections wait to be accepted.
use linux_tcp_servers.Common.{
  ℕ, ℤ, pos, Bool, ◌≤◌, ◌<◌, ◌≡◌, ◌⊎◌, List, [], ◌∷◌, Option, none, some,
}
use linux_tcp_servers.Os.{Os, Reply, returned, failed, EpollData, EpollEvent, CtlOp}

module _ {W : Type 0} (os : Os W) (opened : W → ℤ → Type 0) (watched : W → EpollData → Type 0)
    (waiting : W → ℕ) (limit : ℕ) where
  -- No descriptor is closed, and nothing more is watched.
  pub record Stays (w w' : W) : Type 0 where
    pub still_open : (k : ℤ) → opened w k → opened w' k
    pub no_more : (d : EpollData) → watched w' d → watched w d

  abbrev pub AcceptLaw : W → Reply ℕ × W → Type 0
  AcceptLaw w (returned n, w') =
      ((opened w (pos n) → ⊥) × opened w' (pos n)) × Stays w w' × (waiting w' < waiting w)
  AcceptLaw w (failed e, w') = Stays w w'

  -- The data that a call of `epoll_ctl` hands over.
  abbrev pub Hands : Option EpollEvent → EpollData → Type 0
  Hands none d = ⊥
  Hands (some e) d = e.data_of ≡ d

  abbrev pub AllWatched : W → List EpollEvent → Type 0
  AllWatched w [] = Unit
  AllWatched w (e ∷ es) = watched w e.data_of × AllWatched w es

  abbrev pub WaitLaw : W → Reply (List EpollEvent) × W → Type 0
  WaitLaw w (returned es, w') = AllWatched w' es × Stays w w'
  WaitLaw w (failed e, w') = Stays w w'

  pub record Kernel : Type 0 where
    -- accept(2) gives a descriptor that was not open, and takes a connection off the queue.
    pub accepts : (w : W) (sfd : ℤ) (b : Bool) → AcceptLaw w (os.accept w sfd b)
    pub queue_bound : (w : W) → waiting w ≤ limit
    pub read_stays : (w : W) (sfd : ℤ) (count : ℕ) → Stays w (os.read w sfd count).1
    pub write_stays : (w : W) (sfd : ℤ) (bytes : List ℕ) → Stays w (os.write w sfd bytes).1
    -- epoll_ctl(2) leaves the descriptors and the queue alone.
    pub ctl_open :
        (w : W) (epfd : ℤ) (op : CtlOp) (sfd : ℤ) (e : Option EpollEvent) (k : ℤ)
        → opened w k
        → opened (os.epoll_ctl w epfd op sfd e).1 k
    pub ctl_watched :
        (w : W) (epfd : ℤ) (op : CtlOp) (sfd : ℤ) (e : Option EpollEvent) (d : EpollData)
        → watched (os.epoll_ctl w epfd op sfd e).1 d
        → watched w d ⊎ Hands e d
    pub ctl_queue :
        (w : W) (epfd : ℤ) (op : CtlOp) (sfd : ℤ) (e : Option EpollEvent)
        → waiting (os.epoll_ctl w epfd op sfd e).1 ≤ waiting w
    -- epoll_wait(2) reports events of what is watched.
    pub waits : (w : W) (epfd : ℤ) (n : ℕ) → WaitLaw w (os.epoll_wait w epfd n)
