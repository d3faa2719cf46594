-- ===== src/Select/Rounds.antt =====
-- `max_sfd` and the traffic through a round of the `select` server.
use Prim.Native.String.{String}
use linux_tcp_servers.Common.{
  ◌-◌, ℕ, suc, ℤ, pos, negsuc, ◌≤◌, ◌<◌, ◌≡◌, refl, inr, ltb, if_rule, Bool, true, ◌&&◌, List,
  arith, length, Result, ok, thrown, undefined, out_of_fuel, ◌>>=◌, Round, repeat_rule, continue,
}
use linux_tcp_servers.Os.{Os, Io, Reply, returned, failed, sys_select}
use linux_tcp_servers.Descriptor.{FdClass}
use linux_tcp_servers.Descriptor.Closes.{Guard, come_in, gone_out}
use linux_tcp_servers.Descriptor.Relays.{Relays}
use linux_tcp_servers.Select.{
  fd_setsize, fd_isset, Select, Scan, handle_ready, within, scan_body, scan, nfds, after_select,
  select_round,
}
use linux_tcp_servers.Select.Sets.{IsGreatest}
use linux_tcp_servers.Descriptor.Finite.{Finite}
use linux_tcp_servers.Select.Ends.{Serves, IsCovered}
use linux_tcp_servers.Select.Covered.{IsRelaying, IsServable}
use linux_tcp_servers.Select.Echoes.{handle_ready-Serves}

module _ {W Fd : Type 0} (os : Os W) (cls : FdClass W Fd) (server_sfd : Fd) (amount : W → ℕ)
    (laws : Finite os cls amount) (guard : Guard cls)
    (held : (n : ℤ) → cls.get_fd (cls.holding n) ≡ n) (fuel : ℕ) where
  abbrev Servable : Select W → Type 0
  Servable = IsServable os cls server_sfd amount laws guard held fuel

  abbrev Relaying : Io W → Type 0
  Relaying = IsRelaying os cls server_sfd amount laws guard held fuel

  module _ (ready : List ℕ) where
    abbrev Scans : Scan W → Type 0
    Scans c = Servable c.server × (c.index ≤ fd_setsize)

    abbrev to_do : Scan W → ℕ
    to_do c = fd_setsize - c.index

    abbrev ScanGoal : Result (String × Io W) (Select W) → Type 0
    ScanGoal = Serves Servable Relaying

    -- A descriptor that is scanned has a bit.
    in_set :
        (i : ℕ) (m : ℤ) (set : List ℕ) (b : Bool)
        → IsGreatest m set
        → (within os cls server_sfd i m && b) ≡ true
        → i < fd_setsize
    in_set i (pos m) set b h e = ground (arith, h.0.1)
    in_set i (negsuc m) set b h e = cc

    handled-Round :
        (c : Scan W) (o : Result (String × Io W) (Select W))
        → c.index < fd_setsize
        → Serves Servable Relaying o
        → Round Scans ScanGoal to_do (to_do c) (
            o >>= λ s. ok (
              continue
                (record { index = suc c.index; sfd_ready_no = c.sfd_ready_no - 1; server = s })))
    handled-Round c (ok s) small h = ((h, omega arith), omega arith)
    handled-Round c (thrown e) small h = h
    handled-Round c (undefined e) small h = h
    handled-Round c out_of_fuel small h = h

    scan_body-Round :
        (c : Scan W)
        → Scans c
        → Round Scans ScanGoal to_do (to_do c) (scan_body os cls server_sfd fuel ready c)
    scan_body-Round c (h, small) =
        if_rule (Round Scans ScanGoal to_do (to_do c))
          (within os cls server_sfd c.index c.server.max_sfd && ltb 0 c.sfd_ready_no)
          (λ e.
            let less =
              in_set c.index c.server.max_sfd c.server.read_fd_backup_set (ltb 0 c.sfd_ready_no) h.0
                e in
            if_rule (Round Scans ScanGoal to_do (to_do c)) (fd_isset c.index ready)
              (λ is_ready.
                handled-Round c (handle_ready os cls server_sfd fuel c.index c.server) less (
                  handle_ready-Serves os cls server_sfd amount laws guard held fuel c.index c.server
                    h))
              (λ not_ready. ((h, omega (arith, less)), omega (arith, less))))
          (λ e. h)

  pub scan-IsServable :
      (ready : List ℕ) (s : Select W)
      → fd_setsize < fuel
      → Servable s
      → Serves Servable Relaying (scan os cls server_sfd fuel ready s)
  unfolding scan
  scan-IsServable ready s enough h =
      repeat_rule (Scans ready) (ScanGoal ready) (to_do ready)
        (scan_body os cls server_sfd fuel ready) (scan_body-Round ready) fuel
        (record { index = 0; sfd_ready_no = length ready; server = s }) (omega arith)
        (h, omega arith)

  -- A round of the `select` loop ends, with more fuel than descriptors in a set and than what waits
  -- in the kernel when `select` has returned: if `max_sfd` was the greatest watched descriptor
  -- before, it is so again, whichever connections have come, have been echoed to or have been
  -- closed; or the round ends with an exception. If nothing had gone out on any descriptor but what
  -- had come in on it, in its order, this is so again. Or else the round ends at a descriptor that
  -- the set has no bit for.
  pub select_round-IsServable :
      (s : Select W)
      → fd_setsize < fuel
      → amount (os.select s.io.world (nfds os cls server_sfd s.max_sfd) s.read_fd_backup_set).1
        < fuel
      → IsCovered s
      → Relays s.io.trace
      → Serves Servable Relaying (select_round os cls server_sfd fuel s)
  unfolding select_round come_in gone_out
  select_round-IsServable s enough low h relays =
      answer (sys_select os (nfds os cls server_sfd s.max_sfd) s.read_fd_backup_set s.io) low relays
    where
      answer :
          (r : Reply (List ℕ) × Io W)
          → amount r.1.world < fuel
          → Relays r.1.trace
          → Serves Servable Relaying (after_select os cls server_sfd fuel s r)
      answer (returned ready, io) less rel =
          scan-IsServable ready (record s { io = io }) enough (h, (less, rel))
      answer (failed e, io) less rel = (inr refl, (less, rel))
