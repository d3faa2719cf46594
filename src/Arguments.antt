-- ===== src/Arguments.antt =====
-- src/utilities/constants.cpp, src/include/constants.h and the first lines of each `main`: the command
-- line. `atoi` is the C library's, a parameter of those that use it.
use Prim.Native.String.{String}
use linux_tcp_servers.Common.{ℕ, zero, suc, ℤ, pos, negsuc, List, [], ◌∷◌, Option, none, some}

abbrev pub default_port : String
default_port = "1606"

abbrev pub default_worker_process_number : ℤ
default_worker_process_number = pos 16

abbrev pub default_backlog : ℤ
default_backlog = pos 50

abbrev pub get_elem? {ℓ} : {A : Type ℓ} → List A → ℕ → Option A
get_elem? [] i = none
get_elem? (x ∷ xs) zero = some x
get_elem? (x ∷ xs) (suc i) = get_elem? xs i

abbrev pub text_or : String → Option String → String
text_or default none = default
text_or default (some s) = s

-- `(argc >= 2) ? argv[1] : DEFAULT_PORT`; `argv` starts with the program's name.
abbrev pub port_argument : List String → String
port_argument argv = text_or default_port (get_elem? argv 1)

abbrev pub number_or : (String → ℤ) → ℤ → Option String → ℤ
number_or atoi default none = default
number_or atoi default (some s) = atoi s

abbrev pub backlog_argument : (String → ℤ) → List String → ℤ
backlog_argument atoi argv = number_or atoi default_backlog (get_elem? argv 2)

abbrev pub worker_argument : (String → ℤ) → List String → ℤ
worker_argument atoi argv = number_or atoi default_worker_process_number (get_elem? argv 3)

-- The rounds of `for (int i{0}; i < n; ++i)`.
abbrev pub rounds : ℤ → ℕ
rounds (pos n) = n
rounds (negsuc n) = 0
