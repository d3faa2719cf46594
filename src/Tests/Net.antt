-- ===== src/Tests/Net.antt =====
-- A small kernel: clients that wait, one stream of incoming bytes, and what epoll watches.
use linux_tcp_servers.Common.{
  ℕ, zero, suc, ℤ, pos, negsuc, ◌≤◌, ◌<◌, ◌≡◌, refl, ◌⊎◌, inl, inr, List, [], ◌∷◌, Option, none,
  some, length, take, drop, length-take, min, arith,
}
use linux_tcp_servers.Os.{Os, Reply, returned, failed, eagain, other, EpollData, EpollEvent}
use linux_tcp_servers.Os.Flags.{epollin}
use linux_tcp_servers.Os.Laws.{Transfers, ReadFits}
use linux_tcp_servers.Os.Sockets.{Sockets}
use linux_tcp_servers.Os.Kernel.{Kernel, Stays, AcceptLaw, Hands, AllWatched}

pub record Net : Type 0 where
  pub clients : ℕ
  pub next : ℕ
  pub inbox : List ℕ
  pub watching : List EpollData

-- At most this many clients wait.
abbrev pub queue_limit : ℕ
queue_limit = 3

abbrev pub taken : Net → ℕ → Reply ℕ × Net
taken w zero = (failed eagain, w)
taken w (suc n) = (returned w.next, record w { clients = n; next = suc w.next })

abbrev pub arrived : Net → ℕ → List ℕ → Reply (List ℕ) × Net
arrived w count [] = (failed eagain, w)
arrived w count (b ∷ bs) =
    (returned (take count (b ∷ bs)), record w { inbox = drop count (b ∷ bs) })

abbrev pub watch_more : Option EpollEvent → List EpollData → List EpollData
watch_more none l = l
watch_more (some e) l = e.data_of ∷ l

abbrev pub first_event : List EpollData → List EpollEvent
first_event [] = []
first_event (d ∷ l) = record { events = epollin; data_of = d } ∷ []

abbrev bind_answer : ℤ → Reply (Unit {0})
bind_answer (pos n) = returned tt
bind_answer (negsuc n) = failed (other 9)

abbrev pub net : Os Net
net = record {
  accept = λ w sfd b. taken w (min w.clients queue_limit);
  read = λ w sfd count. arrived w count w.inbox;
  write = λ w sfd bytes. (returned (length bytes), w);
  close = λ w sfd. w;
  epoll_create = λ w. (returned w.next, record w { next = suc w.next });
  epoll_ctl = λ w epfd op sfd e. (returned tt, record w { watching = watch_more e w.watching });
  epoll_wait = λ w epfd n. (returned (first_event w.watching), w);
  select = λ w n set. (returned [], w);
  getaddrinfo =
      λ w port. (returned (record { family = 2; socktype = 1; protocol = 6; addr = 1 } ∷ []), w);
  socket = λ w f t p. (returned w.next, record w { next = suc w.next });
  setsockopt = λ w sfd option. w;
  bind = λ w sfd addr. (bind_answer sfd, w);
  listen = λ w sfd backlog. (returned tt, w);
  fork = λ w. (returned 0, w);
  gethostbyname = λ w name. (some 1, w);
  connect = λ w sfd host port. (returned tt, w);
  get_flags = λ w sfd. (returned 0, w);
  set_flags = λ w sfd flags. (returned tt, w);
}

abbrev pub OpenBelow : ℕ → ℤ → Type 0
OpenBelow next (pos n) = n < next
OpenBelow next (negsuc n) = ⊥

abbrev pub Opened : Net → ℤ → Type 0
Opened w = OpenBelow w.next

abbrev pub InList : EpollData → List EpollData → Type 0
InList d [] = ⊥
InList d (e ∷ l) = (e ≡ d) ⊎ InList d l

abbrev pub Watched : Net → EpollData → Type 0
Watched w d = InList d w.watching

abbrev pub waiting : Net → ℕ
waiting w = min w.clients queue_limit

pub net-Transfers : Transfers net
net-Transfers = record {
  read_fits = λ w sfd count. fits w count w.inbox;
  write_fits = λ w sfd bytes. omega arith;
}
  where
    fits : (w : Net) (count : ℕ) (l : List ℕ) → ReadFits count (arrived w count l).0
    fits w count [] = tt
    fits w count (b ∷ bs) = omega (arith, length-take count (b ∷ bs))

abbrev NetStays : Net → Net → Type 0
NetStays = Stays net Opened Watched waiting queue_limit

same_net : (w : Net) → NetStays w w
same_net w = record { still_open = λ k o. o; no_more = λ d o. o }

OpenBelow-mono : (m n : ℕ) → m ≤ n → (k : ℤ) → OpenBelow m k → OpenBelow n k
OpenBelow-mono m n h (pos i) o = omega arith
OpenBelow-mono m n h (negsuc i) o = o

taken_lem :
    (w : Net) (n : ℕ)
    → min w.clients queue_limit ≡ n
    → AcceptLaw net Opened Watched waiting queue_limit w (taken w n)
taken_lem w zero e = same_net w
taken_lem w (suc n) e = (
  (λ o. omega arith, omega arith),
  record { still_open = OpenBelow-mono w.next _ (omega arith); no_more = λ d o. o },
  omega arith,
)

arrived_stays : (w : Net) (count : ℕ) (l : List ℕ) → NetStays w (arrived w count l).1
arrived_stays w count [] = same_net w
arrived_stays w count (b ∷ bs) = record {
  still_open = OpenBelow-mono w.next _ (omega arith);
  no_more = λ d o. o;
}

watch_more_lem :
    (w : Net) (e : Option EpollEvent) (d : EpollData)
    → InList d (watch_more e w.watching)
    → Watched w d ⊎ Hands net Opened Watched waiting queue_limit e d
watch_more_lem w none d o = inl o
watch_more_lem w (some e) d (inl same) = inr same
watch_more_lem w (some e) d (inr old) = inl old

first_event_lem :
    (w : Net) (l : List EpollData)
    → ((d : EpollData) → InList d l → Watched w d)
    → AllWatched net Opened Watched waiting queue_limit w (first_event l)
first_event_lem w [] h = tt
first_event_lem w (d ∷ l) h = (h d (inl refl), tt)

pub net-Kernel : Kernel net Opened Watched waiting queue_limit
net-Kernel = record {
  accepts = λ w sfd b. taken_lem w (min w.clients queue_limit) refl;
  queue_bound = λ w. omega arith;
  read_stays = λ w sfd count. arrived_stays w count w.inbox;
  write_stays = λ w sfd bytes. same_net w;
  ctl_open = λ w epfd op sfd e k o. o;
  ctl_watched = λ w epfd op sfd e d o. watch_more_lem w e d o;
  ctl_queue = λ w epfd op sfd e. omega arith;
  waits = λ w epfd n. (first_event_lem w w.watching (λ d o. o), same_net w);
}

new_descriptor : (w : Net) → NetStays w (record w { next = suc w.next })
new_descriptor w = record {
  still_open = OpenBelow-mono w.next (suc w.next) (omega arith);
  no_more = λ d o. o;
}

pub net-Sockets : Sockets net Opened Watched waiting queue_limit
net-Sockets = record {
  socket_new = λ w f t p. ((λ o. omega arith, omega arith), new_descriptor w);
  create_new = λ w. ((λ o. omega arith, omega arith), new_descriptor w);
  addr_stays = λ w port. same_net w;
  option_stays = λ w sfd o. same_net w;
  bind_stays = λ w sfd a. same_net w;
  listen_stays = λ w sfd backlog. same_net w;
  bad_fd = λ w a e. cc;
  close_open = λ w sfd k ne o. o;
  close_watched = λ w sfd d o. o;
}
