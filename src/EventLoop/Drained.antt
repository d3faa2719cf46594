-- ===== src/EventLoop/Drained.antt =====
-- Edge-triggered and one-shot: a client's socket must be read until nothing is left, and armed again.
use Prim.Native.String.{String}
use linux_tcp_servers.Common.{
  ℕ, ℤ, ◌<◌, ◌≡◌, refl, if_rule, true, false, List, [], ◌∷◌, some, Result, ok, thrown, undefined,
  out_of_fuel, Round, repeat_rule,
}
use linux_tcp_servers.Os.{
  Os, Io, Call, read_call, ctl_call, ctl_mod, Reply, returned, failed, Errno, would_block,
  errno_after,
}
use linux_tcp_servers.Descriptor.{FdClass}
use linux_tcp_servers.Descriptor.Finite.{Finite, ReadTakes}
use linux_tcp_servers.EventLoop.{
  chunk_size, client_event, client_rearmed, read_ends, after_chunk, chunk_body, read_chunks,
}

-- The newest calls: a `read` that would block, and the arming of the descriptor; or a `read` that found
-- the end of the stream, or an error.
abbrev pub IsDrained : ℤ → ℤ → List Call → Type 0
IsDrained epfd n
      (ctl_call e ctl_mod f (some event) (returned u) ∷ read_call g count (failed x) ∷ trace) =
    (e ≡ epfd) × (f ≡ n) × (g ≡ n) × (event ≡ client_event n) × (would_block x ≡ true)
IsDrained epfd n (read_call g count (returned []) ∷ trace) = g ≡ n
IsDrained epfd n (read_call g count (failed x) ∷ trace) = (g ≡ n) × (would_block x ≡ false)
IsDrained epfd n trace = ⊥

-- It returns with `P`, or throws since the descriptor could not be armed; it has no undefined behaviour
-- and does not run on.
abbrev pub Returns : {X A : Type 0} → (A → Type 0) → Result (String × X) A → Type 0
Returns P (ok a) = P a
Returns P (thrown e) = e.0 ≡ "epoll_ctl() failed"
Returns P (undefined e) = ⊥
Returns P out_of_fuel = ⊥

module _ {W Fd : Type 0} (os : Os W) (cls : FdClass W Fd) (server_sfd epoll_fd : Fd)
    (amount : W → ℕ) (laws : Finite os cls amount) (n : ℤ) where
  abbrev remaining : Io W → ℕ
  remaining io = amount io.world

  abbrev Goal : Result (String × Io W) (Io W) → Type 0
  Goal = Returns (λ io. IsDrained (cls.get_fd epoll_fd) n io.trace)

  abbrev Any : Io W → Type 0
  Any io = Unit

  abbrev noted : Io W → Reply (List ℕ) → W → Io W
  noted io r v = record {
    world = v;
    errno = errno_after io.errno r;
    trace = read_call n chunk_size r ∷ io.trace;
  }

  read_ends-Round :
      (io : Io W) (bound : ℕ) (v : W) (x : Errno)
      → Round Any Goal remaining bound
          (read_ends os cls server_sfd epoll_fd n (noted io (failed x) v))
  read_ends-Round io bound v x =
      if_rule (Round Any Goal remaining bound) (would_block x)
        (λ e.
          let (r, u) = os.epoll_ctl v (cls.get_fd epoll_fd) ctl_mod n (some (client_event n)) in
          rearmed r u e)
        (λ e. (refl, e))
    where
      rearmed :
          (r : Reply (Unit {0})) (u : W)
          → would_block x ≡ true
          → Round Any Goal remaining bound (
              client_rearmed os cls server_sfd epoll_fd (
                r,
                record {
                  world = u;
                  errno = errno_after x r;
                  trace =
                      ctl_call (cls.get_fd epoll_fd) ctl_mod n (some (client_event n)) r
                      ∷ read_call n chunk_size (failed x)
                      ∷ io.trace;
                },
              ))
      rearmed (returned tt) u e = (refl, refl, refl, refl, e)
      rearmed (failed y) u e = refl

  chunk_body-Round :
      (io : Io W)
      → Any io
      → Round Any Goal remaining (remaining io) (chunk_body os cls server_sfd epoll_fd n io)
  chunk_body-Round io any =
      let (r, v) = os.read io.world n chunk_size in
      answer r v (laws.read_takes io.world n chunk_size)
    where
      answer :
          (r : Reply (List ℕ)) (v : W)
          → ReadTakes amount io.world (r, v)
          → Round Any Goal remaining
              (remaining io)
              (after_chunk os cls server_sfd epoll_fd n (r, noted io r v))
      answer (returned []) v less = refl
      answer (returned (b ∷ bytes)) v less = (tt, less)
      answer (failed x) v less = read_ends-Round io (remaining io) v x

  -- The reading of a client's socket ends, with more fuel than the client has sent, and loses no
  -- event: the last `read` has found nothing more and the descriptor is armed again, or it has
  -- found the end of the stream or an error. The one exception is thrown where the arming fails.
  pub read_chunks-IsDrained :
      (fuel : ℕ) (io : Io W)
      → amount io.world < fuel
      → Returns
          (λ t. IsDrained (cls.get_fd epoll_fd) n t.trace)
          (read_chunks os cls server_sfd epoll_fd fuel n io)
  unfolding read_chunks
  read_chunks-IsDrained fuel io enough =
      repeat_rule Any Goal remaining (chunk_body os cls server_sfd epoll_fd n) chunk_body-Round fuel
        io enough tt
