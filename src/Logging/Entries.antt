-- ===== src/Logging/Entries.antt =====
-- The reading of a log: a line that begins with a tab belongs to the entry before it.
use linux_tcp_servers.Common.{
  ℕ, ◌≡◌, ◌≢◌, refl, ◌==◌, ==_iff, not, ◌&&◌, Bool, true, false, Bool-cases, if◌then◌else◌, inl,
  inr, List, [], ◌∷◌, ◌++◌, map, Option, none, some, arith,
}
use linux_tcp_servers.Clients.{bytes_of}
use linux_tcp_servers.Logging.{newline}

pub data Level : Type 0 where
  debug info warning error : Level

unfoldable pub prefix_of : Level → List ℕ
prefix_of debug = bytes_of "DEBUG: "
prefix_of info = bytes_of "INFO: "
prefix_of warning = bytes_of "WARNING: "
prefix_of error = bytes_of "ERROR: "

abbrev pub starts_with_tab : List ℕ → Bool
starts_with_tab [] = false
starts_with_tab (b ∷ t) = b == 9

abbrev at_front : ℕ → List (List ℕ) → List (List ℕ)
at_front b [] = (b ∷ []) ∷ []
at_front b (t ∷ ts) = (b ∷ t) ∷ ts

-- An entry ends at a newline that no tab follows.
unfoldable pub split_entries : List ℕ → List (List ℕ)
split_entries [] = []
split_entries (b ∷ bs) =
    let rest = split_entries bs in
    if (b == newline) && not (starts_with_tab bs) then [] ∷ rest else at_front b rest

abbrev strip : List ℕ → List ℕ → Option (List ℕ)
strip [] t = some t
strip (p ∷ ps) [] = none
strip (p ∷ ps) (b ∷ t) = let rest = strip ps t in if p == b then rest else none

abbrev or_else : Option (Level × List ℕ) → Level → Option (List ℕ) → Option (Level × List ℕ)
or_else other level none = other
or_else other level (some t) = some (level, t)

-- The level of an entry, and what is behind it.
unfoldable pub read_entry : List ℕ → Option (Level × List ℕ)
read_entry t =
    or_else
      (or_else
        (or_else (or_else none error (strip (prefix_of error) t)) warning
          (strip (prefix_of warning) t))
        info (strip (prefix_of info) t))
      debug (strip (prefix_of debug) t)

unfoldable pub read_log : List ℕ → List (Option (Level × List ℕ))
read_log out = map read_entry (split_entries out)

-- Behind each newline in the text there is a tab.
abbrev pub Indented : List ℕ → Type 0
Indented [] = Unit
Indented (b ∷ t) = (b ≡ newline → starts_with_tab t ≡ true) × Indented t

-- What a log holds with these entries.
abbrev pub bytes_for : List (Level × List ℕ) → List ℕ
bytes_for [] = []
bytes_for ((level, t) ∷ es) = (prefix_of level ++ t) ++ (newline ∷ bytes_for es)

abbrev pub AllIndented : List (Level × List ℕ) → Type 0
AllIndented [] = Unit
AllIndented ((level, t) ∷ es) = Indented t × AllIndented es

starts_with_tab-append : (t u : List ℕ) → starts_with_tab t ≡ true → starts_with_tab (t ++ u) ≡ true
starts_with_tab-append [] u e = absurd cc
starts_with_tab-append (b ∷ t) u e = e

one_entry :
    (t rest : List ℕ)
    → Indented t
    → starts_with_tab rest ≡ false
    → split_entries (t ++ (newline ∷ rest)) ≡ t ∷ split_entries rest
unfolding split_entries
one_entry [] rest h e = rw e refl
one_entry (b ∷ t) rest h e =
    let same = one_entry t rest h.1 e in
    elim (Bool-cases (b == newline)) [
      | inl is ↦
          rw (is, starts_with_tab-append t (newline ∷ rest) (h.0 ((==_iff b newline).0 is)), same)
            refl
      | inr other ↦ rw (other, same) refl
    ]

no_tab : (es : List (Level × List ℕ)) → starts_with_tab (bytes_for es) ≡ false
unfolding prefix_of bytes_of
no_tab [] = refl
no_tab ((debug, t) ∷ es) = refl
no_tab ((info, t) ∷ es) = refl
no_tab ((warning, t) ∷ es) = refl
no_tab ((error, t) ∷ es) = refl

-- A text of one line.
abbrev pub one_line : List ℕ → Bool
one_line [] = true
one_line (b ∷ t) = not (b == newline) && one_line t

pub one_line_both :
    (b : ℕ) (t : List ℕ) → one_line (b ∷ t) ≡ true → (b ≢ newline) × (one_line t ≡ true)
one_line_both b t e = ((λ same. absurd (ground (arith, e, same))), ground (arith, e))

pub one_line-Indented : (p t : List ℕ) → one_line p ≡ true → Indented t → Indented (p ++ t)
one_line-Indented [] t e h = h
one_line-Indented (b ∷ p) t e h =
    let (other, rest) = one_line_both b p e in
    ((λ same. absurd (other same)), one_line-Indented p t rest h)

prefixed : (level : Level) (t : List ℕ) → Indented t → Indented (prefix_of level ++ t)
unfolding prefix_of bytes_of
prefixed debug t h = one_line-Indented (prefix_of debug) t refl h
prefixed info t h = one_line-Indented (prefix_of info) t refl h
prefixed warning t h = one_line-Indented (prefix_of warning) t refl h
prefixed error t h = one_line-Indented (prefix_of error) t refl h

read_entry_lem : (level : Level) (t : List ℕ) → read_entry (prefix_of level ++ t) ≡ some (level, t)
unfolding read_entry prefix_of bytes_of
read_entry_lem debug t = refl
read_entry_lem info t = refl
read_entry_lem warning t = refl
read_entry_lem error t = refl

-- A log is read back as the entries that it holds.
pub read_log_lem :
    (es : List (Level × List ℕ)) → AllIndented es → read_log (bytes_for es) ≡ map (λ e. some e) es
unfolding read_log split_entries
read_log_lem [] h = refl
read_log_lem ((level, t) ∷ es) h =
    rw
      (
        one_entry (prefix_of level ++ t) (bytes_for es) (prefixed level t h.0) (no_tab es),
        read_entry_lem level t,
        read_log_lem es h.1,
      )
      refl
