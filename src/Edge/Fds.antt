-- ===== src/Edge/Fds.antt =====
-- How a piece of an epoll server may end, and the descriptors that it has accepted and added.
use linux_tcp_servers.Common.{
  ℕ, ℤ, pos, ◌≤◌, ◌≡◌, refl, true, List, [], ◌∷◌, Option, Result, leaving, ok, ◌⊎◌, inl, inr, sym,
  ap, ◌∙◌, ◌++◌, thrown, undefined, out_of_fuel, ◌>>=◌,
}
use linux_tcp_servers.Os.{
  Os, Io, Call, Reply, returned, failed, EpollEvent, EpollData, ptr, fd, CtlOp, ctl_add,
  accept_call, ctl_call,
}
use linux_tcp_servers.Descriptor.{FdClass}
use linux_tcp_servers.Descriptor.Closes.{OnlyCloses, unchanged, one_more}

-- It returns with `P` or throws with `Q`; it has no undefined behaviour and does not run on.
abbrev pub Settles : {E A : Type 0} → (A → Type 0) → (E → Type 0) → Result E A → Type 0
Settles P Q (ok a) = P a
Settles P Q (thrown e) = Q e
Settles P Q (undefined e) = ⊥
Settles P Q out_of_fuel = ⊥

pub Settles-bind :
    {E A B : Type 0} (P : A → Type 0) (Q : B → Type 0) (X : E → Type 0) (r : Result E A)
    (f : A → Result E B)
    → Settles P X r
    → ((a : A) → P a → Settles Q X (f a))
    → Settles Q X (r >>= f)
Settles-bind P Q X (ok a) f h k = k a h
Settles-bind P Q X (thrown e) f h k = h
Settles-bind P Q X (undefined e) f h k = h
Settles-bind P Q X out_of_fuel f h k = h

pub Settles-leaving :
    {E G A B : Type 0} (P : A → Type 0) (Q : B → Type 0) (X : E → Type 0) (Y : G → Type 0)
    (f : E → G) (g : A → B) (r : Result E A)
    → Settles P X r
    → ((e : E) → X e → Y (f e))
    → ((a : A) → P a → Q (g a))
    → Settles Q Y (leaving f g r)
Settles-leaving P Q X Y f g (ok a) h x k = k a h
Settles-leaving P Q X Y f g (thrown e) h x k = x e h
Settles-leaving P Q X Y f g (undefined e) h x k = h
Settles-leaving P Q X Y f g out_of_fuel h x k = h

abbrev one_accepted : Call → List ℤ → List ℤ
one_accepted (accept_call sfd (returned n)) l = pos n ∷ l
one_accepted c l = l

-- The descriptors that `accept` has returned, the newest first.
unfoldable pub accepted_fds : List Call → List ℤ
accepted_fds [] = []
accepted_fds (c ∷ trace) = one_accepted c (accepted_fds trace)

abbrev one_added : Call → List ℤ → List ℤ
one_added (ctl_call epfd ctl_add sfd event (returned u)) l = sfd ∷ l
one_added c l = l

-- The descriptors that epoll has been told to watch, the newest first.
unfoldable pub added_fds : List Call → List ℤ
added_fds [] = []
added_fds (c ∷ trace) = one_added c (added_fds trace)

pub OnlyCloses-accepted : {t u : List Call} → OnlyCloses t u → accepted_fds u ≡ accepted_fds t
unfolding accepted_fds
OnlyCloses-accepted unchanged = refl
OnlyCloses-accepted (one_more sfd c) = OnlyCloses-accepted c

pub OnlyCloses-added : {t u : List Call} → OnlyCloses t u → added_fds u ≡ added_fds t
unfolding added_fds
OnlyCloses-added unchanged = refl
OnlyCloses-added (one_more sfd c) = OnlyCloses-added c

-- At an exception: all accepted descriptors are watched, or all but the newest.
abbrev pub Misses : ℤ → List Call → Type 0
Misses server t =
    (added_fds t ≡ accepted_fds t ++ (server ∷ []))
    ⊎ ((n : ℕ) × (pos n ∷ added_fds t ≡ accepted_fds t ++ (server ∷ [])))

pub OnlyCloses-Misses :
    (server : ℤ) {t u : List Call} → OnlyCloses t u → Misses server t → Misses server u
OnlyCloses-Misses server c (inl all) =
    inl (OnlyCloses-added c ∙ (all ∙ ap (λ l. l ++ (server ∷ [])) (sym (OnlyCloses-accepted c))))
OnlyCloses-Misses server c (inr (n, most)) = inr (
  n,
  ap (λ l. pos n ∷ l) (OnlyCloses-added c)
      ∙ (most ∙ ap (λ l. l ++ (server ∷ [])) (sym (OnlyCloses-accepted c))),
)

-- `set_fd` of a descriptor is true, and the object holds it then.
pub record Holds {W Fd : Type 0} (cls : FdClass W Fd) : Type 0 where
  pub set_good : (n : ℕ) (f : Fd) (io : Io W) → (cls.set_fd (pos n) f io).0.0 ≡ true
  pub set_holds : (n : ℕ) (f : Fd) (io : Io W) → cls.get_fd (cls.set_fd (pos n) f io).0.1 ≡ pos n

abbrev pub CarriesFd : EpollData → Type 0
CarriesFd (fd n) = Unit
CarriesFd (ptr p) = ⊥

abbrev pub AllCarryFds : List EpollEvent → Type 0
AllCarryFds [] = Unit
AllCarryFds (e ∷ es) = CarriesFd e.data_of × AllCarryFds es

abbrev pub WaitLaw : Reply (List EpollEvent) → Type 0
WaitLaw (returned es) = AllCarryFds es
WaitLaw (failed e) = Unit

-- epoll reports the data it was given, here always a descriptor; and epoll and `close` bring
-- neither data nor clients.
pub record EpollQuiet {W : Type 0} (os : Os W) (amount : W → ℕ) : Type 0 where
  pub reports_fds : (w : W) (epfd : ℤ) (n : ℕ) → WaitLaw (os.epoll_wait w epfd n).0
  pub wait_adds_none : (w : W) (epfd : ℤ) (n : ℕ) → amount (os.epoll_wait w epfd n).1 ≤ amount w
  pub create_adds_none : (w : W) → amount (os.epoll_create w).1 ≤ amount w
  pub ctl_adds_none :
      (w : W) (epfd : ℤ) (op : CtlOp) (sfd : ℤ) (e : Option EpollEvent)
      → amount (os.epoll_ctl w epfd op sfd e).1 ≤ amount w
  pub sys_close_adds_none : (w : W) (sfd : ℤ) → amount (os.close w sfd) ≤ amount w
