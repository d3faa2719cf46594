-- ===== src/Select/Ends.antt =====
-- How the pieces of the `select` server may end.
use Prim.Native.String.{String}
use linux_tcp_servers.Common.{
  ◌≡◌, ◌⊎◌, Result, leaving, ok, thrown, undefined, out_of_fuel, out_of_bounds, ◌>>=◌,
}
use linux_tcp_servers.Select.{Select}
use linux_tcp_servers.Select.Sets.{IsGreatest}

-- How a piece of the server may end: with `P`, by one of its exceptions with `E`, or at a
-- descriptor that a set has no bit for. It never runs on.
abbrev pub Serves : {X A : Type 0} → (A → Type 0) → (X → Type 0) → Result (String × X) A → Type 0
Serves P E (ok a) = P a
Serves P E (thrown e) =
    ((e.0 ≡ "Could not accept a new connection") ⊎ (e.0 ≡ "select() failed")) × E e.1
Serves P E (undefined e) = e ≡ out_of_bounds
Serves P E out_of_fuel = ⊥

pub Serves-bind :
    {X A B : Type 0} (P : A → Type 0) (Q : B → Type 0) (E : X → Type 0) (r : Result (String × X) A)
    (f : A → Result (String × X) B)
    → Serves P E r
    → ((a : A) → P a → Serves Q E (f a))
    → Serves Q E (r >>= f)
Serves-bind P Q E (ok a) f h k = k a h
Serves-bind P Q E (thrown e) f h k = h
Serves-bind P Q E (undefined e) f h k = h
Serves-bind P Q E out_of_fuel f h k = h

-- At the end of a scope the text of an exception stays.
pub Serves-leaving :
    {X Y A B : Type 0} (P : A → Type 0) (Q : B → Type 0) (E : X → Type 0) (F : Y → Type 0)
    (r : Result (String × X) A) (f : X → Y) (g : A → B)
    → Serves P E r
    → ((x : X) → E x → F (f x))
    → ((a : A) → P a → Q (g a))
    → Serves Q F (leaving (λ x. (x.0, f x.1)) g r)
Serves-leaving P Q E F (ok a) f g h x k = k a h
Serves-leaving P Q E F (thrown e) f g h x k = (h.0, x e.1 h.1)
Serves-leaving P Q E F (undefined e) f g h x k = h
Serves-leaving P Q E F out_of_fuel f g h x k = h

abbrev pub IsCovered : {W : Type 0} → Select W → Type 0
IsCovered s = IsGreatest s.max_sfd s.read_fd_backup_set
