-- ===== src/Blocking/Main.antt =====
-- The blocking server from its command line on, client after client.
use Prim.Native.String.{String}
use linux_tcp_servers.Common.{refl, ℕ, ℤ, ◌≤◌, false, ◌∷◌, arith}
use linux_tcp_servers.Os.{Os, Io, Reply, returned, failed, errno_after, accept_call, sys_accept}
use linux_tcp_servers.Setup.{as_int}
use linux_tcp_servers.Descriptor.{FdClass}
use linux_tcp_servers.Descriptor.Finite.{Finite, AcceptTakes}
use linux_tcp_servers.Descriptor.Closes.{
  come_in, handed, same-AllEchoed, Guard, AllEchoed, OnlyCloses-AllEchoed, MostlyEchoed,
  OnlyCloses-MostlyEchoed,
}
use linux_tcp_servers.Listener.Keeps.{Keeps}
use linux_tcp_servers.Blocking.{
  Served, served, failed_with, Exit, running, success, failure, close_client,
}
use linux_tcp_servers.Blocking.Echo.{IsEchoing}

-- Setting up a socket brings no data and no client.
pub record SetupAddsNone {W : Type 0} (os : Os W) (amount : W → ℕ) : Type 0 where
  pub addr_adds_none : (w : W) (port : String) → amount (os.getaddrinfo w port).1 ≤ amount w
  pub socket_adds_none : (w : W) (f t p : ℕ) → amount (os.socket w f t p).1 ≤ amount w
  pub option_adds_none : (w : W) (sfd : ℤ) (o : ℕ) → amount (os.setsockopt w sfd o) ≤ amount w
  pub bind_adds_none : (w : W) (sfd : ℤ) (a : ℕ) → amount (os.bind w sfd a).1 ≤ amount w
  pub listen_adds_none : (w : W) (sfd backlog : ℤ) → amount (os.listen w sfd backlog).1 ≤ amount w

module _ {W Fd : Type 0} (os : Os W) (cls : FdClass W Fd) (amount : W → ℕ)
    (finite : Finite os cls amount) (guard : Guard cls) (fuel : ℕ) where
  abbrev pub Echoing : Io W → Type 0
  Echoing = IsEchoing os cls amount finite fuel

  set_fd-Echoing : (n : ℤ) (f : Fd) (io : Io W) → Echoing io → Echoing (cls.set_fd n f io).1
  set_fd-Echoing n f io h = record {
    echoed = OnlyCloses-AllEchoed (guard.set_closes n f io) h.echoed;
    enough = omega (arith, h.enough, finite.set_adds_none n f io);
  }

  pub close_fd-Echoing : (f : Fd) (io : Io W) → Echoing io → Echoing (cls.close_fd f io).1
  close_fd-Echoing f io h = record {
    echoed = OnlyCloses-AllEchoed (guard.close_closes f io) h.echoed;
    enough = omega (arith, h.enough, finite.close_adds_none f io);
  }

  pub destroy-Echoing : (f : Fd) (io : Io W) → Echoing io → Echoing (cls.destroy f io)
  destroy-Echoing f io h = record {
    echoed = OnlyCloses-AllEchoed (guard.destroy_closes f io) h.echoed;
    enough = omega (arith, h.enough, finite.destroy_adds_none f io);
  }

  pub close_client-Echoing : (f : Fd) (io : Io W) → Echoing io → Echoing (close_client os cls f io)
  close_client-Echoing f io h =
      let (g, t) = cls.close_fd f io in destroy-Echoing g t (close_fd-Echoing f io h)

  -- `accept`, and the object that takes its result.
  pub accepted-Echoing :
      (sfd : ℤ) (f : Fd) (io : Io W)
      → Echoing io
      → let (r, t) = sys_accept os sfd false io in Echoing (cls.set_fd (as_int r) f t).1
  unfolding come_in handed
  accepted-Echoing sfd f io h =
      let (r, v) = os.accept io.world sfd false in
      answer r v (finite.accept_takes io.world sfd false)
    where
      taken : Reply ℕ → W → Io W
      taken r v = record {
        world = v;
        errno = errno_after io.errno r;
        trace = accept_call sfd r ∷ io.trace;
      }

      answer :
          (r : Reply ℕ) (v : W)
          → AcceptTakes amount io.world (r, v)
          → Echoing (cls.set_fd (as_int r) f (taken r v)).1
      answer (returned n) v less =
          set_fd-Echoing (as_int (returned n)) f (taken (returned n) v) (record {
            echoed = same-AllEchoed io.trace _ (λ k. refl) (λ k. refl) h.echoed;
            enough = omega (arith, h.enough);
          })
      answer (failed e) v less = set_fd-Echoing (as_int (failed e)) f (taken (failed e) v) (record {
        echoed = same-AllEchoed io.trace _ (λ k. refl) (λ k. refl) h.echoed;
        enough = omega (arith, h.enough);
      })

  abbrev pub ServedWell : Served W → Type 0
  ServedWell (served io) = Echoing io
  ServedWell (failed_with e io) = MostlyEchoed io.trace

  pub close_client-MostlyEchoed :
      (f : Fd) (io : Io W) → MostlyEchoed io.trace → MostlyEchoed (close_client os cls f io).trace
  close_client-MostlyEchoed f io h =
      let (g, t) = cls.close_fd f io in
      OnlyCloses-MostlyEchoed (guard.destroy_closes g t)
        (OnlyCloses-MostlyEchoed (guard.close_closes f io) h)

  -- A process that runs has echoed everything, but for what short writes have dropped; one that has
  -- failed, all but what came in last on one descriptor.
  abbrev pub IsServing : Exit W → Type 0
  IsServing (running io) = AllEchoed io.trace
  IsServing (success io) = ⊥
  IsServing (failure io) = MostlyEchoed io.trace

  module _ (adds : SetupAddsNone os amount) where
    pub Echoing-Keeps : Keeps os cls Echoing
    unfolding come_in handed
    Echoing-Keeps = record {
      addr_keeps = λ port io h. record {
        echoed = same-AllEchoed io.trace _ (λ k. refl) (λ k. refl) h.echoed;
        enough = omega (arith, h.enough, adds.addr_adds_none io.world port);
      };
      socket_keeps = λ f t p io h. record {
        echoed = same-AllEchoed io.trace _ (λ k. refl) (λ k. refl) h.echoed;
        enough = omega (arith, h.enough, adds.socket_adds_none io.world f t p);
      };
      option_keeps = λ sfd o io h. record {
        echoed = same-AllEchoed io.trace _ (λ k. refl) (λ k. refl) h.echoed;
        enough = omega (arith, h.enough, adds.option_adds_none io.world sfd o);
      };
      bind_keeps = λ sfd a io h. record {
        echoed = same-AllEchoed io.trace _ (λ k. refl) (λ k. refl) h.echoed;
        enough = omega (arith, h.enough, adds.bind_adds_none io.world sfd a);
      };
      listen_keeps = λ sfd b io h. record {
        echoed = same-AllEchoed io.trace _ (λ k. refl) (λ k. refl) h.echoed;
        enough = omega (arith, h.enough, adds.listen_adds_none io.world sfd b);
      };
      set_keeps = set_fd-Echoing;
      close_keeps = close_fd-Echoing;
      destroy_keeps = destroy-Echoing;
    }
