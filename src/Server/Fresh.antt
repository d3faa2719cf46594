-- ===== src/Server/Fresh.antt =====
-- A descriptor that is open and unused, beside the connections of a sound process.
use linux_tcp_servers.Common.{
  ℕ, ℤ, pos, ◌≡◌, ◌≢◌, ◌∙◌, inl, inr, ◌==ℤ◌, ==ℤ_iff, ==ℤ_ne, Bool-cases, [], none, some,
  Option-cases, arith,
}
use linux_tcp_servers.Os.{Os, Io, returned, EpollData, sys_close}
use linux_tcp_servers.Os.Kernel.{Stays}
use linux_tcp_servers.Os.Sockets.{Sockets, NewLaw}
use linux_tcp_servers.Connection.Frame.{SameHistory}
use linux_tcp_servers.Connection.History.{received, sent}
use linux_tcp_servers.Manager.{Manager}
use linux_tcp_servers.Worker.Invariant.{IsSound, IsSound-Stays, IsEcho-same}

module _ {W : Type 0} (os : Os W) (opened : W → ℤ → Type 0) (watched : W → EpollData → Type 0)
    (waiting : W → ℕ) (limit : ℕ) (sockets : Sockets os opened watched waiting limit)
    (m : Manager) where
  abbrev StaysIn : W → W → Type 0
  StaysIn = Stays os opened watched waiting limit

  abbrev pub Sound : Io W → Type 0
  Sound io = IsSound os opened watched waiting limit (λ p. ⊥) (record { io = io; manager = m })

  -- A descriptor that is open, in no entry of the map, and without a history.
  pub record IsFresh (sfd : ℤ) (io : Io W) : Type 0 where
    pub sound : Sound io
    pub is_open : opened io.world sfd
    pub unlisted : m.data_map sfd ≡ none
    pub silent : (received sfd io.trace ≡ []) × (sent sfd io.trace ≡ [])

  pub IsFresh-Stays :
      (sfd : ℤ) (io t : Io W)
      → ((j : ℤ) → SameHistory j t.trace io.trace)
      → StaysIn io.world t.world
      → IsFresh sfd io
      → IsFresh sfd t
  IsFresh-Stays sfd io t same stays h = record {
    sound =
        IsSound-Stays os opened watched waiting limit (λ p. ⊥) (record { io = io; manager = m }) t
          same stays h.sound;
    is_open = stays.still_open sfd h.is_open;
    unlisted = h.unlisted;
    silent = ((same sfd).same_received ∙ h.silent.0, (same sfd).same_sent ∙ h.silent.1);
  }

  -- A descriptor that was not open is fresh once it is.
  pub IsFresh-new :
      (n : ℕ) (io t : Io W)
      → ((j : ℤ) → SameHistory j t.trace io.trace)
      → NewLaw os opened watched waiting limit io.world (returned n, t.world)
      → Sound io
      → IsFresh (pos n) t
  IsFresh-new n io t same ((shut, open_now), stays) h = record {
    sound =
        IsSound-Stays os opened watched waiting limit (λ p. ⊥) (record { io = io; manager = m }) t
          same stays h;
    is_open = open_now;
    unlisted = elim (Option-cases (m.data_map (pos n))) [
      | inl e ↦ e
      | inr (p, e) ↦ absurd (shut (h.listed (pos n) p e))
    ];
    silent =
        let q = h.quiet (pos n) shut in
        ((same (pos n)).same_received ∙ q.0, (same (pos n)).same_sent ∙ q.1);
  }

  close-SameHistory :
      (j sfd : ℤ) (io : Io W) → j ≢ sfd → SameHistory j (sys_close os sfd io).trace io.trace
  unfolding received sent
  close-SameHistory j sfd io ne = ground (arith, ==ℤ_ne sfd j)

  close-quiet :
      (sfd : ℤ) (io : Io W)
      → (received sfd (sys_close os sfd io).trace ≡ [])
        × (sent sfd (sys_close os sfd io).trace ≡ [])
  unfolding received sent
  close-quiet sfd io = ground (arith, ==ℤ_iff sfd sfd)

  -- Closing a descriptor that is in no entry.
  pub close-Sound : (sfd : ℤ) (io : Io W) → IsFresh sfd io → Sound (sys_close os sfd io)
  close-Sound sfd io f = record {
    managed = h.managed;
    echo = λ p c e.
        IsEcho-same c.conn_fd c io (sys_close os sfd io)
          (close-SameHistory c.conn_fd sfd io
            (λ same. unlike c.conn_fd p (h.managed.known p c e) same))
          (h.echo p c e);
    listed = λ k p e. sockets.close_open io.world sfd k (unlike k p e) (h.listed k p e);
    quiet = λ k closed. elim (Bool-cases (k ==ℤ sfd)) [
      | inl hit ↦ rw ((==ℤ_iff k sfd).0 hit) (close-quiet sfd io)
      | inr miss ↦
          let ne : k ≢ sfd = λ same. absurd (grind (arith, ==ℤ_iff k sfd)) in
          let q = h.quiet k (λ o. closed (sockets.close_open io.world sfd k ne o)) in
          let s = close-SameHistory k sfd io ne in (s.same_received ∙ q.0, s.same_sent ∙ q.1)
    ];
    alive = λ d o. h.alive d (sockets.close_watched io.world sfd d o);
    kept = h.kept;
  }
    where
      open f use {sound as h}

      unlike : (k : ℤ) (p : ℕ) → m.data_map k ≡ some p → k ≢ sfd
      unlike k p e same = cc (f.unlisted)
