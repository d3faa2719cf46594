-- ===== src/Select/Accepts.antt =====
-- `max_sfd` and the traffic where the listening socket is readable.
use Prim.Native.String.{String}
use linux_tcp_servers.Common.{
  ℕ, ℤ, pos, negsuc, ◌<◌, ◌≡◌, refl, inl, inr, ltb, if_rule, Bool, true, ◌∷◌, arith, Result, ok,
  ◌>>=◌, Round, repeat, repeat_rule, continue, Bool-cases,
}
use linux_tcp_servers.Os.{Os, Io, Reply, returned, failed, would_block, errno_after, accept_call}
use linux_tcp_servers.Setup.{as_int}
use linux_tcp_servers.Descriptor.{FdClass}
use linux_tcp_servers.Descriptor.Closes.{Guard, come_in, gone_out}
use linux_tcp_servers.Select.{
  drop_accepting, fd_setsize, fd_set, max_int, Select, Accepting, add_client, no_client, accepted,
  accept_body, accept_all,
}
use linux_tcp_servers.Select.Sets.{IsGreatest-add}
use linux_tcp_servers.Descriptor.Finite.{AcceptTakes, Finite}
use linux_tcp_servers.Select.Ends.{Serves, Serves-leaving}
use linux_tcp_servers.Select.Covered.{IsRelaying, IsServable, destroyed, taken}

module _ {W Fd : Type 0} (os : Os W) (cls : FdClass W Fd) (server_sfd : Fd) (amount : W → ℕ)
    (laws : Finite os cls amount) (guard : Guard cls)
    (held : (n : ℤ) → cls.get_fd (cls.holding n) ≡ n) (fuel : ℕ) where
  abbrev Servable : Select W → Type 0
  Servable = IsServable os cls server_sfd amount laws guard held fuel

  abbrev Relaying : Io W → Type 0
  Relaying = IsRelaying os cls server_sfd amount laws guard held fuel

  abbrev queued : Accepting W Fd → ℕ
  queued a = amount a.server.io.world

  abbrev Accepts : Accepting W Fd → Type 0
  Accepts a = Servable a.server

  abbrev AcceptGoal : Result (String × Accepting W Fd) (Accepting W Fd) → Type 0
  AcceptGoal = Serves Accepts (λ a. Relaying a.server.io)

  add_client-Round :
      (a : Accepting W Fd) (bound : ℕ)
      → Accepts a
      → queued a < bound
      → Round Accepts AcceptGoal queued bound (add_client os cls server_sfd a)
  add_client-Round a bound h lt = added (cls.get_fd a.client_sfd)
    where
      added :
          (n : ℤ)
          → Round Accepts AcceptGoal queued bound (
              fd_set n a.server.read_fd_backup_set >>= λ set. ok (
                continue (record a {
                  server = record a.server {
                    read_fd_backup_set = set;
                    max_sfd = max_int a.server.max_sfd n;
                  };
                })))
      added (pos n) = elim (Bool-cases (ltb n fd_setsize)) [
        | inl e ↦ rw e (
          (IsGreatest-add a.server.max_sfd n a.server.read_fd_backup_set (ground arith) h.0, h.1),
          lt,
        )
        | inr e ↦ rw e refl
      ]
      added (negsuc n) = refl

  no_client-Round :
      (a : Accepting W Fd) (bound : ℕ)
      → Accepts a
      → Round Accepts AcceptGoal queued bound (no_client os cls server_sfd a)
  no_client-Round a bound h =
      if_rule (Round Accepts AcceptGoal queued bound) (would_block a.server.io.errno) (λ e. h)
        (λ e. (inl refl, h.1))

  accepted-Round :
      (a : Accepting W Fd) (bound : ℕ) (x : (Bool × Fd) × Io W)
      → (x.0.0 ≡ true → amount x.1.world < bound)
      → Relaying x.1
      → Accepts a
      → Round Accepts AcceptGoal queued bound (accepted os cls server_sfd a x)
  accepted-Round a bound ((good, client), io) less low h =
      if_rule (Round Accepts AcceptGoal queued bound) good
        (λ e.
          add_client-Round (record a { client_sfd = client; server = record a.server { io = io } })
            bound (h.0, low) (less e))
        (λ e.
          no_client-Round (record a { client_sfd = client; server = record a.server { io = io } })
            bound (h.0, low))

  abbrev noted_accept : Accepting W Fd → Reply ℕ → W → Io W
  noted_accept a r v = record {
    world = v;
    errno = errno_after a.server.io.errno r;
    trace = accept_call (cls.get_fd server_sfd) r ∷ a.server.io.trace;
  }

  accept_body-Round :
      (a : Accepting W Fd)
      → Accepts a
      → Round Accepts AcceptGoal queued (queued a) (accept_body os cls server_sfd a)
  unfolding come_in gone_out
  accept_body-Round a h =
      let w = a.server.io.world in
      let (r, v) = os.accept w (cls.get_fd server_sfd) true in
      answer r v (laws.accept_takes w (cls.get_fd server_sfd) true)
    where
      answer :
          (r : Reply ℕ) (v : W)
          → AcceptTakes amount a.server.io.world (r, v)
          → Round Accepts AcceptGoal queued (queued a) (
              accepted os cls server_sfd a
                (cls.set_fd (as_int r) a.client_sfd (noted_accept a r v)))
      answer (returned n) v less =
          accepted-Round a (queued a)
            (cls.set_fd (pos n) a.client_sfd (noted_accept a (returned n) v))
            (λ e.
              omega
                (arith, laws.set_adds_none (pos n) a.client_sfd (noted_accept a (returned n) v)))
            (taken os cls server_sfd amount laws guard held fuel (pos n) a.client_sfd
              (noted_accept a (returned n) v) (omega (arith, h.1.0), h.1.1))
            h
      answer (failed e) v less =
          accepted-Round a (queued a)
            (cls.set_fd (negsuc 0) a.client_sfd (noted_accept a (failed e) v))
            (λ t.
              absurd (grind (arith, laws.set_tells 0 a.client_sfd (noted_accept a (failed e) v))))
            (taken os cls server_sfd amount laws guard held fuel (negsuc 0) a.client_sfd
              (noted_accept a (failed e) v) (omega (arith, h.1.0), h.1.1))
            h

  pub accept_all-Serves :
      (s : Select W) → Servable s → Serves Servable Relaying (accept_all os cls server_sfd fuel s)
  accept_all-Serves s h =
      Serves-leaving Accepts Servable (λ a. Relaying a.server.io) Relaying
        (repeat fuel (accept_body os cls server_sfd) start) (drop_accepting os cls server_sfd) _
        (repeat_rule Accepts AcceptGoal queued (accept_body os cls server_sfd) accept_body-Round
          fuel start h.1.0 h)
        (λ a k. destroyed os cls server_sfd amount laws guard held fuel a.client_sfd a.server.io k)
        (λ a k. (
          k.0,
          destroyed os cls server_sfd amount laws guard held fuel a.client_sfd a.server.io k.1,
        ))
    where
      start : Accepting W Fd
      start = record { server = s; client_sfd = cls.empty }
