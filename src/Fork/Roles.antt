-- ===== src/Fork/Roles.antt =====
-- The calls of `read` and `write` of a process of the forking server.
use linux_tcp_servers.Common.{
  Returns, Ends-bind, ℕ, zero, suc, ◌≡◌, ◌≢◌, refl, ◌∙◌, Bool, false, List, [], ◌∷◌, Outcome,
  if_rule,
}
use linux_tcp_servers.Os.{
  Os, Io, Call, read_call, write_call, Reply, returned, failed, sys_accept, sys_fork,
}
use linux_tcp_servers.Setup.{as_int}
use linux_tcp_servers.Descriptor.{FdClass}
use linux_tcp_servers.Descriptor.Closes.{Guard, OnlyCloses, unchanged, one_more}
use linux_tcp_servers.Blocking.{Exit, running, success, failure, close_client}
use linux_tcp_servers.Fork.{
  ForkRound, next_round, child_exits, fork_throws, forked, fork_for, fork_round, after_round,
  fork_rounds,
}

-- The calls of `read` and `write`.
abbrev one_transfer : Call → ℕ → ℕ
one_transfer (read_call sfd count r) n = suc n
one_transfer (write_call sfd bytes r) n = suc n
one_transfer c n = n

unfoldable pub transfers : List Call → ℕ
transfers [] = 0
transfers (c ∷ trace) = one_transfer c (transfers trace)

OnlyCloses-transfers : {t u : List Call} → OnlyCloses t u → transfers u ≡ transfers t
unfolding transfers
OnlyCloses-transfers unchanged = refl
OnlyCloses-transfers (one_more sfd c) = OnlyCloses-transfers c

module _ {W Fd : Type 0} (os : Os W) (cls : FdClass W Fd) (guard : Guard cls) (fuel : ℕ) where
  module _ (parent : (w : W) → (os.fork w).0 ≢ returned 0) (before : ℕ) where
    abbrev Idle : Io W → Type 0
    Idle io = transfers io.trace ≡ before

    abbrev RoundIdle : ForkRound W → Type 0
    RoundIdle (next_round io) = Idle io
    RoundIdle (child_exits io) = ⊥
    RoundIdle (fork_throws e io) = Idle io

    close_client-Idle : (f : Fd) (io : Io W) → Idle io → Idle (close_client os cls f io)
    close_client-Idle f io h =
        let (g, t) = cls.close_fd f io in
        OnlyCloses-transfers (guard.destroy_closes g t)
        ∙ (OnlyCloses-transfers (guard.close_closes f io) ∙ h)

    forked-Idle :
        (f : Fd) (r : Reply ℕ × Io W)
        → r.0 ≢ returned 0
        → Idle r.1
        → Returns RoundIdle (forked os cls fuel f r)
    forked-Idle f (failed e, io) nz h = close_client-Idle f io h
    forked-Idle f (returned (suc pid), io) nz h =
        OnlyCloses-transfers (guard.destroy_closes f io) ∙ h
    forked-Idle f (returned zero, io) nz h = absurd (nz refl)

    fork_round-Idle :
        (server_sfd : Fd) (io : Io W)
        → Idle io
        → Returns RoundIdle (fork_round os cls fuel server_sfd io)
    unfolding fork_round transfers
    fork_round-Idle server_sfd io h =
        let (r, t) = sys_accept os (cls.get_fd server_sfd) false io in
        answer (cls.set_fd (as_int r) cls.empty t)
          (OnlyCloses-transfers (guard.set_closes (as_int r) cls.empty t) ∙ h)
      where
        answer : (x : (Bool × Fd) × Io W) → Idle x.1 → Returns RoundIdle (fork_for os cls fuel x)
        answer ((good, f), t) g =
            if_rule (Returns RoundIdle) good (λ e. forked-Idle f (sys_fork os t) (parent t.world) g)
              (λ e. OnlyCloses-transfers (guard.destroy_closes f t) ∙ g)

    -- It still accepts, or it has failed; and it has transferred nothing.
    abbrev pub IsParent : Exit W → Type 0
    IsParent (running io) = Idle io
    IsParent (success io) = ⊥
    IsParent (failure io) = Idle io

    after_round-IsParent :
        (server_sfd : Fd) (next : Io W → Outcome (Exit W))
        → ((t : Io W) → Idle t → Returns IsParent (next t))
        → (r : ForkRound W) → RoundIdle r
        → Returns IsParent (after_round os cls server_sfd next r)
    after_round-IsParent server_sfd next k (next_round io) h = k io h
    after_round-IsParent server_sfd next k (child_exits io) h = absurd h
    after_round-IsParent server_sfd next k (fork_throws e io) h =
        OnlyCloses-transfers (guard.close_closes server_sfd io) ∙ h

    -- The process that `fork` never answers with 0 accepts connection after connection and neither
    -- reads nor writes; it does not end, but with a failure.
    pub fork_rounds-IsParent :
        (clients : ℕ) (server_sfd : Fd) (io : Io W)
        → transfers io.trace ≡ before
        → Returns IsParent (fork_rounds os cls clients fuel server_sfd io)
    unfolding fork_rounds
    fork_rounds-IsParent zero server_sfd io h = h
    fork_rounds-IsParent (suc n) server_sfd io h =
        Ends-bind (λ x. ⊥) RoundIdle IsParent (fork_round os cls fuel server_sfd io) _
          (fork_round-Idle server_sfd io h)
          (after_round-IsParent server_sfd (λ t. fork_rounds os cls n fuel server_sfd t)
            (fork_rounds-IsParent n server_sfd))
