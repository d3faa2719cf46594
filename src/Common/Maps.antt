-- ===== src/Common/Maps.antt =====
-- Maps as functions: hash maps and the heap, whose order the program never sees.
use Prim.Native.Nat.{ℕ}
use mathlib.Core.Option.{Option}
use linux_tcp_servers.Common.Tests.{ℤ, ◌==◌, ◌==ℤ◌, if◌then◌else◌}

-- The map `f` with `k` bound to `v`, or unbound if `v` is `none`.
abbrev pub update {ℓ} : {A : Type ℓ} → (ℤ → Option A) → ℤ → Option A → ℤ → Option A
update f k v j = if k ==ℤ j then v else f j

abbrev pub store {ℓ} : {A : Type ℓ} → (ℕ → Option A) → ℕ → Option A → ℕ → Option A
store h p v q = if p == q then v else h q
