-- ===== src/Connection/Frame.antt =====
-- What `handleConnectionEvent` may touch: the histories of all other descriptors, the open
-- descriptors, and what epoll watches.
use linux_tcp_servers.Common.{
  ℕ, ℤ, ◌<◌, ◌≡◌, ◌≢◌, ◌⊎◌, inl, inr, Bool, List, some, arith, ==ℤ_ne, Ends, Ends-map, ◌∷◌, refl,
  Option,
}
use linux_tcp_servers.Os.{
  Os, Io, Call, read_call, write_call, Reply, returned, failed, EpollData, EpollEvent, ptr, ctl_mod,
  sys_read, sys_write, sys_epoll_ctl,
}
use linux_tcp_servers.Os.Laws.{Transfers}
use linux_tcp_servers.Os.Kernel.{Kernel, Stays}
use linux_tcp_servers.Connection.{buffer_size, Handling, rearm_event, handle_connection_event}
use linux_tcp_servers.Connection.Bounds.{IsValid, OnlyBounds, Keeps, handle_connection_event-Keeps}
use linux_tcp_servers.Connection.History.{received, sent}

-- The histories of a descriptor in two traces agree.
pub record SameHistory (j : ℤ) (t u : List Call) : Type 0 where
  pub same_received : received j t ≡ received j u
  pub same_sent : sent j t ≡ sent j u

-- A call of `read` or `write` on another descriptor is no part of the history of `j`.
module _ (j sfd : ℤ) (other : j ≢ sfd) where
  read_call-SameHistory :
      (n : ℕ) (r : Reply (List ℕ)) (t u : List Call)
      → SameHistory j t u
      → SameHistory j (read_call sfd n r ∷ t) u
  unfolding received sent
  read_call-SameHistory n (returned bytes) t u h = ground (arith, ==ℤ_ne sfd j)
  read_call-SameHistory n (failed e) t u h = ground (arith, ==ℤ_ne sfd j)

  write_call-SameHistory :
      (bytes : List ℕ) (r : Reply ℕ) (t u : List Call)
      → SameHistory j t u
      → SameHistory j (write_call sfd bytes r ∷ t) u
  unfolding received sent
  write_call-SameHistory bytes (returned n) t u h = ground (arith, ==ℤ_ne sfd j)
  write_call-SameHistory bytes (failed e) t u h = ground (arith, ==ℤ_ne sfd j)

module _ {W : Type 0} (os : Os W) (opened : W → ℤ → Type 0) (watched : W → EpollData → Type 0)
    (waiting : W → ℕ) (limit : ℕ) (kernel : Kernel os opened watched waiting limit) where
  pub record Frame (sfd : ℤ) (address : ℕ) (before after : Io W) : Type 0 where
    pub others : (j : ℤ) → j ≢ sfd → SameHistory j after.trace before.trace
    pub still_open : (k : ℤ) → opened before.world k → opened after.world k
    pub watch :
        (d : EpollData) → watched after.world d → watched before.world d ⊎ (ptr (some address) ≡ d)

  module _ (epoll_fd sfd : ℤ) (address : ℕ) (start : Io W) where
    read_Frame :
        (io : Io W) (count : ℕ)
        → Frame sfd address start io
        → Frame sfd address start (sys_read os sfd count io).1
    read_Frame io count f = record {
      others = λ j other.
          read_call-SameHistory j sfd other count (os.read io.world sfd count).0 io.trace
            start.trace (f.others j other);
      still_open = λ k o. s.still_open k (f.still_open k o);
      watch = λ d o. f.watch d (s.no_more d o);
    }
      where
        s : Stays os opened watched waiting limit io.world (os.read io.world sfd count).1
        s = kernel.read_stays io.world sfd count

    write_Frame :
        (io : Io W) (bytes : List ℕ)
        → Frame sfd address start io
        → Frame sfd address start (sys_write os sfd bytes io).1
    write_Frame io bytes f = record {
      others = λ j other.
          write_call-SameHistory j sfd other bytes (os.write io.world sfd bytes).0 io.trace
            start.trace (f.others j other);
      still_open = λ k o. s.still_open k (f.still_open k o);
      watch = λ d o. f.watch d (s.no_more d o);
    }
      where
        s : Stays os opened watched waiting limit io.world (os.write io.world sfd bytes).1
        s = kernel.write_stays io.world sfd bytes

    rearm_Frame :
        (io : Io W) (b : Bool)
        → Frame sfd address start io
        → Frame sfd address start
            (sys_epoll_ctl os epoll_fd ctl_mod sfd (some (rearm_event os epoll_fd address b)) io).1
    unfolding received sent
    rearm_Frame io b f = record {
      others = λ j other. record {
        same_received = (f.others j other).same_received;
        same_sent = (f.others j other).same_sent;
      };
      still_open = λ k o. kernel.ctl_open io.world epoll_fd ctl_mod sfd e k (f.still_open k o);
      watch = λ d o. after d (kernel.ctl_watched io.world epoll_fd ctl_mod sfd e d o);
    }
      where
        e : Option EpollEvent
        e = some (rearm_event os epoll_fd address b)

        after :
            (d : EpollData)
            → watched io.world d ⊎ (ptr (some address) ≡ d)
            → watched start.world d ⊎ (ptr (some address) ≡ d)
        after d (inl o) = f.watch d o
        after d (inr same) = inr same

    start-Frame : Frame sfd address start start
    start-Frame = record {
      others = λ j other. record { same_received = refl; same_sent = refl };
      still_open = λ k o. o;
      watch = λ d o. inl o;
    }

    pub handle_connection_event-Frame :
        Transfers os
        → (fuel : ℕ) (s : Handling W) → buffer_size < fuel
        → s.conn.conn_fd ≡ sfd
        → IsValid s.conn
        → s.io ≡ start
        → Ends OnlyBounds
            (λ t. IsValid t.conn × Frame sfd address start t.io)
            (handle_connection_event os epoll_fd address fuel s)
    handle_connection_event-Frame laws fuel s m own valid e =
        Ends-map OnlyBounds
          (Keeps os epoll_fd address sfd (Frame sfd address start) read_Frame write_Frame
            rearm_Frame)
          OnlyBounds _ _ (λ x f. f) (λ t k. (k.valid, k.fact))
          (handle_connection_event-Keeps os epoll_fd address sfd (Frame sfd address start)
            read_Frame write_Frame rearm_Frame laws fuel s m
            (record { own = own; valid = valid; fact = rw e start-Frame }))
