-- ===== src/Descriptor/Relays.antt =====
-- What a server that only echoes may send.
use linux_tcp_servers.Common.{
  ℕ, zero, suc, ℤ, ◌==ℤ◌, if◌then◌else◌, Bool, true, false, List, [], ◌∷◌, ◌++◌, take,
}
use linux_tcp_servers.Os.{Call, read_call, write_call, Reply, returned, failed}
use linux_tcp_servers.Descriptor.Closes.{OnlyCloses, unchanged, one_more, come_in, gone_out}

-- The first list is the second without some of its elements, in the same order.
pub data Sublist : List ℕ → List ℕ → Type 0 where
  nothing : Sublist [] []
  passed : (x : ℕ) {xs ys : List ℕ} → Sublist xs ys → Sublist (x ∷ xs) (x ∷ ys)
  dropped : (y : ℕ) {xs ys : List ℕ} → Sublist xs ys → Sublist xs (y ∷ ys)

Sublist-none : (ys : List ℕ) → Sublist [] ys
Sublist-none [] = nothing
Sublist-none (y ∷ ys) = dropped y (Sublist-none ys)

Sublist-take : (n : ℕ) (ys : List ℕ) → Sublist (take n ys) ys
Sublist-take zero ys = Sublist-none ys
Sublist-take (suc n) [] = nothing
Sublist-take (suc n) (y ∷ ys) = passed y (Sublist-take n ys)

Sublist-append :
    {xs ys zs ws : List ℕ} → Sublist xs ys → Sublist zs ws → Sublist (xs ++ zs) (ys ++ ws)
Sublist-append nothing q = q
Sublist-append (passed x p) q = passed x (Sublist-append p q)
Sublist-append (dropped y p) q = dropped y (Sublist-append p q)

Sublist-more : {xs ys : List ℕ} (zs : List ℕ) → Sublist xs ys → Sublist xs (ys ++ zs)
Sublist-more zs nothing = Sublist-none zs
Sublist-more zs (passed x p) = passed x (Sublist-more zs p)
Sublist-more zs (dropped y p) = dropped y (Sublist-more zs p)

-- Nothing has gone out on a descriptor but what came in on it, in that order and each byte at most
-- once.
abbrev pub Relays : List Call → Type 0
Relays t = (k : ℤ) → Sublist (gone_out k t) (come_in k t)

pub OnlyCloses-Relays : {t u : List Call} → OnlyCloses t u → Relays t → Relays u
unfolding come_in gone_out
OnlyCloses-Relays unchanged h = h
OnlyCloses-Relays (one_more sfd c) h = OnlyCloses-Relays c h

grown :
    (b : Bool) (xs ys bytes : List ℕ) → Sublist xs ys → Sublist xs (if b then ys ++ bytes else ys)
grown true xs ys bytes h = Sublist-more bytes h
grown false xs ys bytes h = h

pub read-Relays :
    (n : ℤ) (count : ℕ) (r : Reply (List ℕ)) (t : List Call)
    → Relays t
    → Relays (read_call n count r ∷ t)
unfolding come_in gone_out
read-Relays n count (returned bytes) t h k =
    grown (n ==ℤ k) (gone_out k t) (come_in k t) bytes (h k)
read-Relays n count (failed e) t h k = h k

both_grown :
    (b : Bool) (m : ℕ) (xs ys bytes : List ℕ)
    → Sublist xs ys
    → Sublist (if b then xs ++ take m bytes else xs) (if b then ys ++ bytes else ys)
both_grown true m xs ys bytes h = Sublist-append h (Sublist-take m bytes)
both_grown false m xs ys bytes h = h

-- What was read is written to the same descriptor, whole or in part or not at all.
pub echo-Relays :
    (n : ℤ) (count : ℕ) (bytes : List ℕ) (r : Reply ℕ) (t : List Call)
    → Relays t
    → Relays (write_call n bytes r ∷ read_call n count (returned bytes) ∷ t)
unfolding come_in gone_out
echo-Relays n count bytes (returned m) t h k =
    both_grown (n ==ℤ k) m (gone_out k t) (come_in k t) bytes (h k)
echo-Relays n count bytes (failed e) t h k =
    grown (n ==ℤ k) (gone_out k t) (come_in k t) bytes (h k)
