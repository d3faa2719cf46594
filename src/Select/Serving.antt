-- ===== src/Select/Serving.antt =====
-- The `select` server from its command line on.
use Prim.Native.String.{String}
use linux_tcp_servers.Common.{
  Ends, ℕ, zero, suc, ℤ, pos, negsuc, ◌≤◌, ◌<◌, ◌≡◌, ◌⊎◌, refl, ltb, ==_iff, Bool-cases, inl, inr,
  true, false, List, [], arith, Result, ok, thrown, undefined, out_of_fuel, out_of_bounds, ◌>>=◌,
}
use linux_tcp_servers.Os.{Os, Io}
use linux_tcp_servers.Arguments.{port_argument, backlog_argument}
use linux_tcp_servers.Descriptor.{FdClass}
use linux_tcp_servers.Descriptor.Closes.{Guard, come_in, gone_out}
use linux_tcp_servers.Descriptor.Relays.{Relays, OnlyCloses-Relays}
use linux_tcp_servers.Descriptor.Finite.{Finite}
use linux_tcp_servers.Listener.{ListenerResult, ready, refused, setup_listener}
use linux_tcp_servers.Listener.Keeps.{Keeps, Kept, setup_listener-Kept}
use linux_tcp_servers.Blocking.Main.{SetupAddsNone}
use linux_tcp_servers.Select.{Select, fd_setsize, fd_isset, fd_set, nfds, select_round}
use linux_tcp_servers.Select.Ends.{Serves, Serves-bind, IsCovered}
use linux_tcp_servers.Select.Covered.{IsRelaying, IsServable}
use linux_tcp_servers.Select.Rounds.{select_round-IsServable}
use linux_tcp_servers.Select.Main.{
  SelectEnd, serving, select_refused, select_failed, first_sets, select_rounds, select_caught,
  select_from, select_main,
}

module _ {W Fd : Type 0} (os : Os W) (cls : FdClass W Fd) (amount : W → ℕ)
    (finite : Finite os cls amount) (guard : Guard cls)
    (held : (n : ℤ) → cls.get_fd (cls.holding n) ≡ n) (adds : SetupAddsNone os amount)
    (selects : (w : W) (n : ℕ) (set : List ℕ) → amount (os.select w n set).1 ≤ amount w) (fuel : ℕ)
    (room : fd_setsize < fuel) where
  abbrev Enough : Io W → Type 0
  Enough io = (amount io.world < fuel) × Relays io.trace

  Enough-Keeps : Keeps os cls Enough
  unfolding come_in gone_out
  Enough-Keeps = record {
    addr_keeps = λ port io h. (omega (arith, h.0, adds.addr_adds_none io.world port), h.1);
    socket_keeps = λ f t p io h. (omega (arith, h.0, adds.socket_adds_none io.world f t p), h.1);
    option_keeps = λ sfd o io h. (omega (arith, h.0, adds.option_adds_none io.world sfd o), h.1);
    bind_keeps = λ sfd a io h. (omega (arith, h.0, adds.bind_adds_none io.world sfd a), h.1);
    listen_keeps = λ sfd b io h. (omega (arith, h.0, adds.listen_adds_none io.world sfd b), h.1);
    set_keeps = λ n f io h. (
      omega (arith, h.0, finite.set_adds_none n f io),
      OnlyCloses-Relays (guard.set_closes n f io) h.1,
    );
    close_keeps = λ f io h. (
      omega (arith, h.0, finite.close_adds_none f io),
      OnlyCloses-Relays (guard.close_closes f io) h.1,
    );
    destroy_keeps = λ f io h. (
      omega (arith, h.0, finite.destroy_adds_none f io),
      OnlyCloses-Relays (guard.destroy_closes f io) h.1,
    );
  }

  first_sets-IsServable :
      (server_sfd : Fd) (io : Io W)
      → Enough io
      → Serves
          (IsServable os cls server_sfd amount finite guard held fuel)
          (IsRelaying os cls server_sfd amount finite guard held fuel)
          (first_sets os cls server_sfd io)
  unfolding fd_isset
  first_sets-IsServable server_sfd io h = member (cls.get_fd server_sfd)
    where
      member :
          (n : ℤ)
          → Serves {X = Io W}
              (IsServable os cls server_sfd amount finite guard held fuel)
              (IsRelaying os cls server_sfd amount finite guard held fuel)
              (fd_set n [] >>= λ set. ok (record {
                io = io;
                max_sfd = n;
                read_fd_backup_set = set;
                write_fd_backup_set = [];
              }))
      member (negsuc n) = refl
      member (pos n) = elim (Bool-cases (ltb n fd_setsize)) [
        | inl small ↦ rw small (((grind (arith, ==_iff n n), grind arith), (omega arith, tt)), h)
        | inr large ↦ rw large refl
      ]

  select_rounds-IsServable :
      (server_sfd : Fd) (n : ℕ) (s : Select W)
      → IsServable os cls server_sfd amount finite guard held fuel s
      → Serves {X = Io W}
          (IsServable os cls server_sfd amount finite guard held fuel)
          (IsRelaying os cls server_sfd amount finite guard held fuel)
          (select_rounds os cls n fuel server_sfd s)
  unfolding select_rounds
  select_rounds-IsServable server_sfd zero s h = h
  select_rounds-IsServable server_sfd (suc n) s h =
      let Good = IsServable os cls server_sfd amount finite guard held fuel in
      Serves-bind Good Good (IsRelaying os cls server_sfd amount finite guard held fuel)
        (select_round os cls server_sfd fuel s) _
        (select_round-IsServable os cls server_sfd amount finite guard held fuel s room
          (omega (
            arith,
            h.1.0,
            selects s.io.world (nfds os cls server_sfd s.max_sfd) s.read_fd_backup_set,
          ))
          h.0 h.1.1)
        (select_rounds-IsServable server_sfd n)

  -- It runs, and `max_sfd` is the greatest watched descriptor; or it has failed. Nothing has gone
  -- out but what came in.
  abbrev pub ServesOrFails : SelectEnd W → Type 0
  ServesOrFails (serving s) = IsCovered s × Relays s.io.trace
  ServesOrFails (select_refused io) = Relays io.trace
  ServesOrFails (select_failed e io) =
      ((e ≡ "Could not accept a new connection") ⊎ (e ≡ "select() failed")) × Relays io.trace

  caught-ServesOrFails :
      (server_sfd : Fd) (r : Result (String × Io W) (Select W))
      → Serves
          (IsServable os cls server_sfd amount finite guard held fuel)
          (IsRelaying os cls server_sfd amount finite guard held fuel)
          r
      → Ends (λ e. e ≡ out_of_bounds) ServesOrFails (select_caught os cls server_sfd r)
  caught-ServesOrFails server_sfd (ok s) h = (h.0, h.1.1)
  caught-ServesOrFails server_sfd (thrown (e, io)) h =
      (h.0, OnlyCloses-Relays (guard.close_closes server_sfd io) h.1.1)
  caught-ServesOrFails server_sfd (undefined e) h = h
  caught-ServesOrFails server_sfd out_of_fuel h = h

  -- After any number of rounds the `select` server still runs, and `max_sfd` is the greatest
  -- descriptor that it watches; or it has failed, in its setup or with one of the two exceptions of
  -- its loop. So far nothing has gone out on a descriptor but what has come in on it, in that order
  -- and each byte at most once. Or else it has met a descriptor that no set has a bit for. While no
  -- more clients and data come than the fuel, no loop runs on for ever.
  pub select_main-ServesOrFails :
      (atoi : String → ℤ) (argv : List String) (n : ℕ) (io : Io W)
      → amount io.world < fuel
      → Relays io.trace
      → Ends (λ e. e ≡ out_of_bounds) ServesOrFails (select_main os cls atoi argv n fuel io)
  unfolding select_main
  select_main-ServesOrFails atoi argv n io h relays =
      from (setup_listener os cls (port_argument argv) (backlog_argument atoi argv) true false io) (
        setup_listener-Kept os cls Enough Enough-Keeps (backlog_argument atoi argv) true false
          (port_argument argv) io (h, relays))
    where
      from :
          (r : ListenerResult W Fd)
          → Kept os cls Enough Enough-Keeps (backlog_argument atoi argv) true false r
          → Ends (λ e. e ≡ out_of_bounds) ServesOrFails (select_from os cls n fuel r)
      from (ready server_sfd t) k =
          let Good = IsServable os cls server_sfd amount finite guard held fuel in
          caught-ServesOrFails server_sfd
            (first_sets os cls server_sfd t >>= select_rounds os cls n fuel server_sfd)
            (Serves-bind Good Good (IsRelaying os cls server_sfd amount finite guard held fuel)
              (first_sets os cls server_sfd t) _ (first_sets-IsServable server_sfd t k)
              (select_rounds-IsServable server_sfd n))
      from (refused e t) k = OnlyCloses-Relays (guard.close_closes cls.empty t) k.1
