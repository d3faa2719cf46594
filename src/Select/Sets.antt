-- ===== src/Select/Sets.antt =====
-- The greatest member of a descriptor set, through the operations of the server.
use linux_tcp_servers.Common.{
  max, ℕ, zero, suc, ℤ, pos, negsuc, ◌≤◌, ◌<◌, ◌≡◌, ◌≢◌, refl, ◌==◌, ==_iff, ◌==ℤ◌, if◌then◌else◌,
  if_rule, true, false, ◌||◌, List, [], ◌∷◌, arith, ap, sym, subst, ◌∙◌,
}
use linux_tcp_servers.Select.{fd_setsize, fd_isset, fd_clr, max_int, lower_max}

abbrev pub AtMost : ℤ → ℕ → Type 0
AtMost (pos m) n = n ≤ m
AtMost (negsuc m) n = ⊥

abbrev pub AllAtMost : ℤ → List ℕ → Type 0
AllAtMost m [] = Unit
AllAtMost m (n ∷ ns) = AtMost m n × AllAtMost m ns

-- `max_sfd` is a member of the set for which there is a bit, or negative.
abbrev pub IsMember : ℤ → List ℕ → Type 0
IsMember (pos m) set = (fd_isset m set ≡ true) × (m < fd_setsize)
IsMember (negsuc m) set = Unit

abbrev pub IsGreatest : ℤ → List ℕ → Type 0
IsGreatest m set = IsMember m set × AllAtMost m set

AtMost-max : (m k : ℤ) (n : ℕ) → AtMost m n → AtMost (max_int m k) n
AtMost-max (pos m) (pos k) n h = omega arith
AtMost-max (pos m) (negsuc k) n h = h
AtMost-max (negsuc m) k n h = absurd h

AllAtMost-max : (m k : ℤ) (set : List ℕ) → AllAtMost m set → AllAtMost (max_int m k) set
AllAtMost-max m k [] h = tt
AllAtMost-max m k (n ∷ ns) h = (AtMost-max m k n h.0, AllAtMost-max m k ns h.1)

-- FD_SET with `std::max`.
pub IsGreatest-add :
    (m : ℤ) (n : ℕ) (set : List ℕ)
    → n < fd_setsize
    → IsGreatest m set
    → IsGreatest (max_int m (pos n)) (n ∷ set)
unfolding fd_isset
IsGreatest-add (pos m) n set small h = (
  (grind (arith, ==_iff (max m n) n, h.0.0), omega arith),
  (omega arith, AllAtMost-max (pos m) (pos n) set h.1),
)
IsGreatest-add (negsuc m) n set small h =
    ((grind (arith, ==_iff n n), small), (omega arith, AllAtMost-max (negsuc m) (pos n) set h.1))

AllAtMost-clr : (m : ℤ) (i : ℕ) (set : List ℕ) → AllAtMost m set → AllAtMost m (fd_clr i set)
unfolding fd_clr
AllAtMost-clr m i [] h = tt
AllAtMost-clr m i (n ∷ ns) h =
    if_rule (AllAtMost m) (i == n) (λ e. AllAtMost-clr m i ns h.1)
      (λ e. (h.0, AllAtMost-clr m i ns h.1))

isset-clr : (m i : ℕ) (set : List ℕ) → m ≢ i → fd_isset m (fd_clr i set) ≡ fd_isset m set
unfolding fd_isset fd_clr
isset-clr m i [] ne = refl
isset-clr m i (n ∷ ns) ne =
    if_rule (λ l. fd_isset m l ≡ ((m == n) || fd_isset m ns)) (i == n)
      (λ e. grind (arith, isset-clr m i ns ne, ==_iff i n, ==_iff m n))
      (λ e. ap (λ b. (m == n) || b) (isset-clr m i ns ne))

-- Every member is smaller than the number.
abbrev AllBelow : ℕ → List ℕ → Type 0
AllBelow i [] = Unit
AllBelow i (n ∷ ns) = (n < i) × AllBelow i ns

AllBelow-clr : (i : ℕ) (set : List ℕ) → AllAtMost (pos i) set → AllBelow i (fd_clr i set)
unfolding fd_clr
AllBelow-clr i [] h = tt
AllBelow-clr i (n ∷ ns) h =
    if_rule (AllBelow i) (i == n) (λ e. AllBelow-clr i ns h.1)
      (λ e. (grind (arith, ==_iff i n, h.0), AllBelow-clr i ns h.1))

AllBelow-pred :
    (n : ℕ) (set : List ℕ) → AllBelow (suc n) set → fd_isset n set ≡ false → AllBelow n set
unfolding fd_isset
AllBelow-pred n [] h e = tt
AllBelow-pred n (m ∷ ms) h e =
    (ground (arith, ==_iff n m), AllBelow-pred n ms h.1 (ground (arith, ==_iff n m)))

AllAtMost-of_Below : (n : ℕ) (set : List ℕ) → AllBelow (suc n) set → AllAtMost (pos n) set
AllAtMost-of_Below n [] h = tt
AllAtMost-of_Below n (m ∷ ms) h = (omega (arith, h.0), AllAtMost-of_Below n ms h.1)

none_below : (m : ℤ) (set : List ℕ) → AllBelow 0 set → AllAtMost m set
none_below m [] h = tt
none_below m (n ∷ ns) h = absurd (omega (arith, h.0))

-- The search for the new greatest member.
lower_max-IsGreatest :
    (i : ℕ) (set : List ℕ) → i ≤ fd_setsize → AllBelow i set → IsGreatest (lower_max i set) set
unfolding lower_max
lower_max-IsGreatest zero set small h = (tt, none_below (negsuc 0) set h)
lower_max-IsGreatest (suc n) set small h =
    if_rule (λ m. IsGreatest m set) (fd_isset n set)
      (λ e. ((e, omega arith), AllAtMost-of_Below n set h))
      (λ e. lower_max-IsGreatest n set (omega arith) (AllBelow-pred n set h e))

-- FD_CLR with the search, if the greatest member goes.
pub IsGreatest-clr :
    (m : ℤ) (i : ℕ) (set : List ℕ)
    → IsGreatest m set
    → IsGreatest (if pos i ==ℤ m then lower_max i (fd_clr i set) else m) (fd_clr i set)
IsGreatest-clr (negsuc m) i set h = (tt, AllAtMost-clr (negsuc m) i set h.1)
IsGreatest-clr (pos m) i set h =
    if_rule (λ k. IsGreatest k (fd_clr i set)) (pos i ==ℤ pos m)
      (λ e.
        let same = (==_iff i m).0 e in
        lower_max-IsGreatest i (fd_clr i set) (omega (arith, h.0.1, same))
          (AllBelow-clr i set (subst (λ k. AllAtMost (pos k) set) (sym same) h.1)))
      (λ e. (
        (isset-clr m i set (λ same. grind (arith, ==_iff i m)) ∙ h.0.0, h.0.1),
        AllAtMost-clr (pos m) i set h.1,
      ))
