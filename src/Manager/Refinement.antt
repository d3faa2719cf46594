-- ===== src/Manager/Refinement.antt =====
-- The manager of the connections against its specification, a finite map from descriptors to
-- connection data.
use linux_tcp_servers.Common.{
  ℕ, ℤ, ◌≡◌, ◌≢◌, Option, none, some, Option-cases, inl, inr, arith, fun_ext, ◌==ℤ◌, ==ℤ_iff,
  if◌then◌else◌, Bool, false, ◌==◌, if◌then◌else◌,
}
use linux_tcp_servers.Connection.{ConnectionData, connection}
use linux_tcp_servers.Manager.{Manager, get, insert, remove}
use linux_tcp_servers.Manager.Invariant.{IsValid}

abbrev pub Table : Type 0
Table = ℤ → Option ConnectionData

-- A key that is bound stays bound to its old value, as in `std::unordered_map::insert`.
abbrev pub add_key : ℤ → ConnectionData → Option ConnectionData → Table → Table
add_key k c (some old) t j = t j
add_key k c none t j = if k ==ℤ j then some c else t j

abbrev pub delete_key : ℤ → Table → Table
delete_key k t j = if k ==ℤ j then none else t j

abbrev pub behind : Manager → Option ℕ → Option ConnectionData
behind m none = none
behind m (some p) = m.heap p

-- What a lookup and a dereference give.
unfoldable pub contents : Manager → Table
contents m k = behind m (m.data_map k)

contents-insert :
    (k : ℤ) (m : Manager)
    → IsValid m
    → contents (insert k m).1 ≡ add_key k (connection k) (contents m k) (contents m)
unfolding contents insert
contents-insert k m v = elim (Option-cases (m.data_map k)) [
  | inl e ↦ fun_ext λ j. elim (Option-cases (m.data_map j)) [
    | inl f ↦ ground (arith, ==ℤ_iff k j)
    | inr (q, f) ↦ ground (arith, ==ℤ_iff k j, v.owned j q f, v.fresh m.next)
  ]
  | inr (p, e) ↦ fun_ext λ j. ground (arith, v.owned k p e)
]

-- What `insert` returns: null for a key that was bound, else the pointer that `get` finds from now on.
abbrev pub Inserted : ℤ → Manager → Option ℕ × Manager → Type 0
Inserted k m (none, m') = contents m k ≢ none
Inserted k m (some p, m') =
    (contents m k ≡ none) × (get k m' ≡ some p) × (m'.heap p ≡ some (connection k))

insert-Inserted : (k : ℤ) (m : Manager) → IsValid m → Inserted k m (insert k m)
unfolding contents insert get
insert-Inserted k m v = elim (Option-cases (m.data_map k)) [
  | inl e ↦ ground (arith, ==ℤ_iff k k)
  | inr (p, e) ↦ ground (arith, v.owned k p e)
]

-- `insert` adds a fresh connection under a key that is not bound, and changes nothing otherwise; its
-- result is the pointer to the new object, or null.
pub insert_refines :
    (k : ℤ) (m : Manager)
    → IsValid m
    → (contents (insert k m).1 ≡ add_key k (connection k) (contents m k) (contents m))
      × Inserted k m (insert k m)
insert_refines k m v = (contents-insert k m v, insert-Inserted k m v)

contents-remove :
    (k : ℤ) (m : Manager) → IsValid m → contents (remove k m) ≡ delete_key k (contents m)
unfolding contents remove
contents-remove k m v = elim (Option-cases (m.data_map k)) [
  | inl e ↦ fun_ext λ j. ground (arith, ==ℤ_iff k j)
  | inr (p, e) ↦ fun_ext λ j. elim (Option-cases (m.data_map j)) [
    | inl f ↦ ground (arith, ==ℤ_iff k j)
    | inr (q, f) ↦ ground (arith, ==ℤ_iff k j, v.owned j q f, v.owned k p e)
  ]
]

-- Is `p` the pointer that a lookup gave?
abbrev pub is_entry : Option ℕ → ℕ → Bool
is_entry none p = false
is_entry (some q) p = q == p

remove-heap :
    (k : ℤ) (m : Manager) (p : ℕ)
    → (remove k m).heap p ≡ (if is_entry (get k m) p then none else m.heap p)
unfolding remove get
remove-heap k m p = ground arith

pub remove_frees :
    (k : ℤ) (m : Manager) (p : ℕ) → m.data_map k ≡ some p → (remove k m).heap p ≡ none
unfolding remove
remove_frees k m p e = ground arith

-- `remove` deletes its key alone: the object behind it is freed, and every other object stays where
-- it is.
pub remove_refines :
    (k : ℤ) (m : Manager) (p : ℕ)
    → IsValid m
    → (contents (remove k m) ≡ delete_key k (contents m))
      × ((remove k m).heap p ≡ (if is_entry (get k m) p then none else m.heap p))
remove_refines k m p v = (contents-remove k m v, remove-heap k m p)
