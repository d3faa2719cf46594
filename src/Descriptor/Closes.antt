-- ===== src/Descriptor/Closes.antt =====
-- The class `file_descriptor` as a guard: its methods close descriptors, and make no other call.
use linux_tcp_servers.Common.{
  ℤ, ◌≡◌, refl, ◌∙◌, sym, ap, ℕ, zero, suc, ◌≤◌, List, [], ◌∷◌, ◌++◌, take, length, ◌==ℤ◌, ltb,
  if◌then◌else◌, ◌⊎◌, inl, inr, arith,
}
use linux_tcp_servers.Os.{
  Io, Call, accept_call, read_call, write_call, close_call, create_call, ctl_call, wait_call,
  select_call, addr_call, socket_call, option_call, bind_call, listen_call, fork_call, host_call,
  connect_call, get_flags_call, set_flags_call, returned, failed,
}
use linux_tcp_servers.Descriptor.{FdClass}

-- The second trace has more calls of `close` than the first.
pub data OnlyCloses (t : List Call) : List Call → Type 0 where
  unchanged : OnlyCloses t t
  one_more : (sfd : ℤ) {u : List Call} → OnlyCloses t u → OnlyCloses t (close_call sfd ∷ u)

pub record Guard {W Fd : Type 0} (cls : FdClass W Fd) : Type 0 where
  pub set_closes : (n : ℤ) (f : Fd) (io : Io W) → OnlyCloses io.trace (cls.set_fd n f io).1.trace
  pub close_closes : (f : Fd) (io : Io W) → OnlyCloses io.trace (cls.close_fd f io).1.trace
  pub destroy_closes : (f : Fd) (io : Io W) → OnlyCloses io.trace (cls.destroy f io).trace

abbrev one_in : ℤ → Call → List ℕ → List ℕ
one_in k (read_call sfd n (returned bytes)) before = if sfd ==ℤ k then before ++ bytes else before
one_in k c before = before

abbrev one_out : ℤ → Call → List ℕ → List ℕ
one_out k (write_call sfd bytes (returned n)) before =
    if sfd ==ℤ k then before ++ take n bytes else before
one_out k c before = before

-- All that has ever come in on a descriptor, over all the connections that it has stood for.
unfoldable pub come_in : ℤ → List Call → List ℕ
come_in k [] = []
come_in k (c ∷ trace) = one_in k c (come_in k trace)

unfoldable pub gone_out : ℤ → List Call → List ℕ
gone_out k [] = []
gone_out k (c ∷ trace) = one_out k c (gone_out k trace)

abbrev one_handed : ℤ → Call → List ℕ → List ℕ
one_handed k (write_call sfd bytes (returned n)) before =
    if sfd ==ℤ k then before ++ bytes else before
one_handed k c before = before

-- What has been handed to the calls of `write` on a descriptor that did not fail. Such a call may take
-- less than it is given.
unfoldable pub handed : ℤ → List Call → List ℕ
handed k [] = []
handed k (c ∷ trace) = one_handed k c (handed k trace)

abbrev one_short : ℤ → Call → ℕ → ℕ
one_short k (write_call sfd bytes (returned n)) before =
    if sfd ==ℤ k then (if ltb n (length bytes) then suc before else before) else before
one_short k c before = before

-- The calls of `write` on a descriptor that have taken only a part.
unfoldable pub short_writes : ℤ → List Call → ℕ
short_writes k [] = 0
short_writes k (c ∷ trace) = one_short k c (short_writes k trace)

-- All that came in on any descriptor has been handed to `write` on it, in order; and has gone out on it
-- again, if no `write` on it has taken only a part.
pub record AllEchoed (t : List Call) : Type 0 where
  pub all_handed : (k : ℤ) → come_in k t ≡ handed k t
  pub all_out : (k : ℤ) → short_writes k t ≡ 0 → come_in k t ≡ gone_out k t

abbrev pub but_last : ℤ → List ℕ → ℤ → List ℕ → List ℕ
but_last n bytes k done = if n ==ℤ k then done ++ bytes else done

-- All but what came in last on the descriptor `n`.
pub record AllBut (n : ℤ) (bytes : List ℕ) (t : List Call) : Type 0 where
  pub most_handed : (k : ℤ) → come_in k t ≡ but_last n bytes k (handed k t)
  pub most_out : (k : ℤ) → short_writes k t ≡ 0 → come_in k t ≡ but_last n bytes k (gone_out k t)

-- All, or all but what came in on one descriptor last.
abbrev pub MostlyEchoed : List Call → Type 0
MostlyEchoed t = AllEchoed t ⊎ ((n : ℤ) × ((bytes : List ℕ) × AllBut n bytes t))

take_all : (n : ℕ) (bytes : List ℕ) → length bytes ≤ n → take n bytes ≡ bytes
take_all zero [] h = refl
take_all (suc n) [] h = refl
take_all zero (b ∷ bytes) h = absurd (omega (arith, h))
take_all (suc n) (b ∷ bytes) h = ap (λ l. b ∷ l) (take_all n bytes (omega (arith, h)))

one_handed-one_out :
    (k n : ℤ) (bytes : List ℕ) (m : ℕ) (t : List Call)
    → (short_writes k t ≡ 0 → handed k t ≡ gone_out k t)
    → short_writes k (write_call n bytes (returned m) ∷ t) ≡ 0
    → handed k (write_call n bytes (returned m) ∷ t)
      ≡ gone_out k (write_call n bytes (returned m) ∷ t)
unfolding short_writes handed gone_out
one_handed-one_out k n bytes m t h none = ground (arith, h, take_all m bytes)

-- Where no `write` was short, what was handed on has gone out.
pub handed-gone_out : (k : ℤ) (t : List Call) → short_writes k t ≡ 0 → handed k t ≡ gone_out k t
unfolding short_writes handed gone_out
handed-gone_out k [] h = refl
handed-gone_out k (accept_call sfd r ∷ t) h = handed-gone_out k t h
handed-gone_out k (read_call sfd n r ∷ t) h = handed-gone_out k t h
handed-gone_out k (write_call sfd bytes (returned n) ∷ t) h =
    one_handed-one_out k sfd bytes n t (handed-gone_out k t) h
handed-gone_out k (write_call sfd bytes (failed e) ∷ t) h = handed-gone_out k t h
handed-gone_out k (close_call sfd ∷ t) h = handed-gone_out k t h
handed-gone_out k (create_call r ∷ t) h = handed-gone_out k t h
handed-gone_out k (ctl_call epfd op sfd event r ∷ t) h = handed-gone_out k t h
handed-gone_out k (wait_call epfd r ∷ t) h = handed-gone_out k t h
handed-gone_out k (select_call nfds set r ∷ t) h = handed-gone_out k t h
handed-gone_out k (addr_call port r ∷ t) h = handed-gone_out k t h
handed-gone_out k (socket_call f p q r ∷ t) h = handed-gone_out k t h
handed-gone_out k (option_call sfd o ∷ t) h = handed-gone_out k t h
handed-gone_out k (bind_call sfd a r ∷ t) h = handed-gone_out k t h
handed-gone_out k (listen_call sfd b r ∷ t) h = handed-gone_out k t h
handed-gone_out k (fork_call r ∷ t) h = handed-gone_out k t h
handed-gone_out k (host_call name h ∷ t) e = handed-gone_out k t e
handed-gone_out k (connect_call sfd a b r ∷ t) h = handed-gone_out k t h
handed-gone_out k (get_flags_call sfd r ∷ t) h = handed-gone_out k t h
handed-gone_out k (set_flags_call sfd flags r ∷ t) h = handed-gone_out k t h

pub handed-AllEchoed : (t : List Call) → ((k : ℤ) → come_in k t ≡ handed k t) → AllEchoed t
handed-AllEchoed t h = record { all_handed = h; all_out = λ k none. h k ∙ handed-gone_out k t none }

-- A call that neither reads nor writes.
pub same-AllEchoed :
    (t u : List Call)
    → ((k : ℤ) → come_in k u ≡ come_in k t)
    → ((k : ℤ) → handed k u ≡ handed k t)
    → AllEchoed t
    → AllEchoed u
same-AllEchoed t u i o h = handed-AllEchoed u (λ k. i k ∙ (h.all_handed k ∙ sym (o k)))

pub handed-AllBut :
    (n : ℤ) (bytes : List ℕ) (t : List Call)
    → ((k : ℤ) → come_in k t ≡ but_last n bytes k (handed k t))
    → AllBut n bytes t
handed-AllBut n bytes t h = record {
  most_handed = h;
  most_out = λ k none. h k ∙ ap (but_last n bytes k) (handed-gone_out k t none);
}

pub OnlyCloses-come_in : {t u : List Call} → OnlyCloses t u → (k : ℤ) → come_in k u ≡ come_in k t
unfolding come_in
OnlyCloses-come_in unchanged k = refl
OnlyCloses-come_in (one_more sfd c) k = OnlyCloses-come_in c k

pub OnlyCloses-gone_out : {t u : List Call} → OnlyCloses t u → (k : ℤ) → gone_out k u ≡ gone_out k t
unfolding gone_out
OnlyCloses-gone_out unchanged k = refl
OnlyCloses-gone_out (one_more sfd c) k = OnlyCloses-gone_out c k

OnlyCloses-handed : {t u : List Call} → OnlyCloses t u → (k : ℤ) → handed k u ≡ handed k t
unfolding handed
OnlyCloses-handed unchanged k = refl
OnlyCloses-handed (one_more sfd c) k = OnlyCloses-handed c k

pub OnlyCloses-AllEchoed : {t u : List Call} → OnlyCloses t u → AllEchoed t → AllEchoed u
OnlyCloses-AllEchoed {u = u} c h =
    handed-AllEchoed u
      (λ k. OnlyCloses-come_in c k ∙ (h.all_handed k ∙ sym (OnlyCloses-handed c k)))

pub OnlyCloses-MostlyEchoed : {t u : List Call} → OnlyCloses t u → MostlyEchoed t → MostlyEchoed u
OnlyCloses-MostlyEchoed c (inl all) = inl (OnlyCloses-AllEchoed c all)
OnlyCloses-MostlyEchoed {u = u} c (inr (n, (bytes, most))) = inr (
  n,
  (
    bytes,
    handed-AllBut n bytes u (λ k.
        OnlyCloses-come_in c k
        ∙ (most.most_handed k ∙ ap (but_last n bytes k) (sym (OnlyCloses-handed c k)))),
  ),
)
