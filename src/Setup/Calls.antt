-- ===== src/Setup/Calls.antt =====
-- What the calls of a setup add up to: the sockets that are left open. The traces are newest first.
use linux_tcp_servers.Common.{ℕ, pos, ◌==◌, if◌then◌else◌, List, [], ◌∷◌}
use linux_tcp_servers.Os.{Call, socket_call, close_call, returned}

unfoldable pub remove_one : ℕ → List ℕ → List ℕ
remove_one n [] = []
remove_one n (m ∷ ms) = let rest = remove_one n ms in if n == m then ms else m ∷ rest

abbrev pub opened_or_closed : Call → List ℕ → List ℕ
opened_or_closed (socket_call f t p (returned n)) l = n ∷ l
opened_or_closed (close_call (pos n)) l = remove_one n l
opened_or_closed c l = l

-- The sockets made and not closed.
unfoldable pub left_open : List Call → List ℕ
left_open [] = []
left_open (c ∷ trace) = opened_or_closed c (left_open trace)
