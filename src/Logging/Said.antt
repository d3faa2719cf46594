-- ===== src/Logging/Said.antt =====
-- Calls of the log functions, and the entries that each is to leave.
use Prim.Native.Nat.{◌/◌}
use linux_tcp_servers.Common.{
  ℕ, ◌+◌, ◌*◌, ◌%◌, ◌==◌, ◌≡◌, refl, sym, ◌∙◌, ap, Bool, true, false, if◌then◌else◌, List, [], ◌∷◌,
  ◌++◌, append-nil, append_assoc, Option, none, some, Outcome, ok, ◌>>=◌,
}
use linux_tcp_servers.Clients.{bytes_of}
use linux_tcp_servers.Logging.{
  newline, log, log_debug, log_info, log_warning, log_error, decimal_in, decimal, SockAddr,
  log_client_info, worker_log_client_info, with_address,
}
use linux_tcp_servers.Logging.Entries.{
  one_line, Indented, Level, debug, info, warning, error, prefix_of, bytes_for,
}

-- A call of one of the log functions. Of a client that has connected the family is given, the port, the
-- address and the prefix of the log.
pub data Said : Type 0 where
  said : Level → List (List ℕ) → Said
  client worker_client : (family port : ℕ) (ip prefix_log : List ℕ) → Said

-- The kernel fills in the higher byte of a port first.
abbrev pub network_address : ℕ → ℕ → List ℕ → SockAddr
network_address family port ip = record {
  ss_family = family;
  port_bytes = (port / 256, port % 256);
  ip_bytes = ip;
}

abbrev pub concatenated : List (List ℕ) → List ℕ
concatenated [] = []
concatenated (t ∷ ts) = t ++ concatenated ts

-- The text of an address, which is in one line.
abbrev pub Line : Option (List ℕ) → Type 0
Line none = ⊥
Line (some text) = one_line text ≡ true

abbrev pub text_of : Option (List ℕ) → List ℕ
text_of none = []
text_of (some text) = text

with_address_lem :
    (write : List ℕ → List ℕ) (o : Option (List ℕ))
    → Line o
    → with_address write o ≡ ok (write (text_of o))
with_address_lem write none h = absurd h
with_address_lem write (some text) h = refl

module _ (inet_ntop : ℕ → List ℕ → ℕ → Option (List ℕ)) where
  -- The address of a client of the families IPv4 and IPv6 has a text that fits into sixteen bytes.
  abbrev pub Shown : ℕ → List ℕ → Type 0
  Shown family ip =
      ((family == 2) ≡ true → Line (inet_ntop family ip 16))
      × ((family == 10) ≡ true → Line (inet_ntop family ip 16))

  -- A text may have newlines if tabs follow them; a prefix is in one line.
  abbrev pub Fits : Said → Type 0
  Fits (said level contents) = Indented (concatenated contents)
  Fits (client family port ip prefix_log) = (one_line prefix_log ≡ true) × Shown family ip
  Fits (worker_client family port ip prefix_log) = (one_line prefix_log ≡ true) × Shown family ip

  abbrev pub AllFit : List Said → Type 0
  AllFit [] = Unit
  AllFit (s ∷ ss) = Fits s × AllFit ss

  abbrev pub say : Said → List ℕ → Outcome (List ℕ)
  say (said debug contents) out = ok (log_debug contents out)
  say (said info contents) out = ok (log_info contents out)
  say (said warning contents) out = ok (log_warning contents out)
  say (said error contents) out = ok (log_error contents out)
  say (client family port ip prefix_log) out =
      log_client_info inet_ntop (network_address family port ip) prefix_log out
  say (worker_client family port ip prefix_log) out =
      worker_log_client_info inet_ntop (network_address family port ip) prefix_log out

  abbrev pub say_all : List Said → List ℕ → Outcome (List ℕ)
  say_all [] out = ok out
  say_all (s ∷ ss) out = say s out >>= say_all ss

  -- The two bytes of the port are exchanged.
  abbrev pub client_texts : ℕ → ℕ → ℕ → List ℕ → List (List ℕ)
  client_texts version family port ip =
      (bytes_of "New IPv" ++ (version ∷ bytes_of " client connected: address="))
      ∷ text_of (inet_ntop family ip 16)
      ∷ bytes_of ", port="
      ∷ decimal (port / 256 + 256 * (port % 256))
      ∷ []

  abbrev pub client_entry : List (List ℕ) → ℕ → ℕ → ℕ → List ℕ → Level × List ℕ
  client_entry place version family port ip =
      (info, concatenated place ++ concatenated (client_texts version family port ip))

  abbrev pub client_entries : List (List ℕ) → List (List ℕ) → ℕ → ℕ → List ℕ → List (Level × List ℕ)
  client_entries place4 place6 family port ip =
      if family == 2
      then client_entry place4 b'4' family port ip ∷ []
      else if family == 10
      then client_entry place6 b'6' family port ip ∷ []
      else []

  abbrev pub line_no : List ℕ → List ℕ → List (List ℕ)
  line_no prefix_log number = prefix_log ∷ bytes_of "line " ∷ number ∷ bytes_of ":\t" ∷ []

  -- The entries that a call is to leave.
  abbrev pub entries : Said → List (Level × List ℕ)
  entries (said level contents) = (level, concatenated contents) ∷ []
  entries (client family port ip prefix_log) =
      client_entries (prefix_log ∷ []) (prefix_log ∷ []) family port ip
  entries (worker_client family port ip prefix_log) =
      client_entries (line_no prefix_log (bytes_of "388")) (line_no prefix_log (bytes_of "394"))
        family port ip

  abbrev pub all_entries : List Said → List (Level × List ℕ)
  all_entries [] = []
  all_entries (s ∷ ss) = entries s ++ all_entries ss

  log_lem :
      (content : List ℕ) (contents : List (List ℕ)) (out : List ℕ)
      → log content contents out ≡ out ++ ((content ++ concatenated contents) ++ (newline ∷ []))
  unfolding log
  log_lem content [] out = simp (append_assoc, append-nil)
  log_lem content (next ∷ contents) out =
      log_lem next contents (out ++ content) ∙ simp (append_assoc)

  bytes_for-append :
      (es fs : List (Level × List ℕ)) → bytes_for (es ++ fs) ≡ bytes_for es ++ bytes_for fs
  bytes_for-append [] fs = refl
  bytes_for-append ((level, t) ∷ es) fs = rw (bytes_for-append es fs) simp (append_assoc)

  said-entries :
      (level : Level) (contents : List (List ℕ)) (out : List ℕ)
      → say (said level contents) out ≡ ok (out ++ bytes_for (entries (said level contents)))
  unfolding prefix_of
  said-entries debug contents out = ap (λ t. ok t) (log_lem (bytes_of "DEBUG: ") contents out)
  said-entries info contents out = ap (λ t. ok t) (log_lem (bytes_of "INFO: ") contents out)
  said-entries warning contents out = ap (λ t. ok t) (log_lem (bytes_of "WARNING: ") contents out)
  said-entries error contents out = ap (λ t. ok t) (log_lem (bytes_of "ERROR: ") contents out)

  concatenated-append :
      (ts us : List (List ℕ)) → concatenated (ts ++ us) ≡ concatenated ts ++ concatenated us
  concatenated-append [] us = refl
  concatenated-append (t ∷ ts) us = rw (concatenated-append ts us) simp (append_assoc)

  -- A call of `log_info` behind what tells the place.
  placed :
      (place rest : List (List ℕ)) (out : List ℕ)
      → log_info (place ++ rest) out
        ≡ out ++ bytes_for ((info, concatenated place ++ concatenated rest) ∷ [])
  unfolding prefix_of
  placed place rest out =
      log_lem (bytes_of "INFO: ") (place ++ rest) out
      ∙ ap (λ t. out ++ bytes_for ((info, t) ∷ [])) (concatenated-append place rest)

  either :
      (a b : Bool) (x y : Outcome (List ℕ)) (out : List ℕ) (es fs : List (Level × List ℕ))
      → (a ≡ true → x ≡ ok (out ++ bytes_for es))
      → (b ≡ true → y ≡ ok (out ++ bytes_for fs))
      → (if a then x else if b then y else ok out)
        ≡ ok (out ++ bytes_for (if a then es else if b then fs else []))
  either true b x y out es fs e f = e refl
  either false true x y out es fs e f = f refl
  either false false x y out es fs e f = ap (λ t. ok t) (sym (append-nil out))

  -- The calls of `log_info` for a client.
  shown_lem :
      (place : List (List ℕ)) (version family port : ℕ) (ip out : List ℕ)
      → Line (inet_ntop family ip 16)
      → with_address
          (λ address.
            log_info
              (place
                ++ ((bytes_of "New IPv" ++ (version ∷ bytes_of " client connected: address="))
                    ∷ address
                    ∷ bytes_of ", port="
                    ∷ decimal (port / 256 + 256 * (port % 256))
                    ∷ []))
              out)
          (inet_ntop family ip 16)
        ≡ ok (out ++ bytes_for (client_entry place version family port ip ∷ []))
  shown_lem place version family port ip out line =
      with_address_lem _ (inet_ntop family ip 16) line
      ∙ ap (λ t. ok t) (placed place (client_texts version family port ip) out)

  say_lem : (s : Said) (out : List ℕ) → Fits s → say s out ≡ ok (out ++ bytes_for (entries s))
  unfolding bytes_of decimal_in
  say_lem (said level contents) out h = said-entries level contents out
  say_lem (client family port ip prefix_log) out h =
      either (family == 2) (family == 10) _ _ out _ _
        (λ e. shown_lem (prefix_log ∷ []) b'4' family port ip out (h.1.0 e))
        (λ e. shown_lem (prefix_log ∷ []) b'6' family port ip out (h.1.1 e))
  say_lem (worker_client family port ip prefix_log) out h =
      either (family == 2) (family == 10) _ _ out _ _
        (λ e. shown_lem (line_no prefix_log (bytes_of "388")) b'4' family port ip out (h.1.0 e))
        (λ e. shown_lem (line_no prefix_log (bytes_of "394")) b'6' family port ip out (h.1.1 e))

  pub say_all_lem :
      (ss : List Said) (out : List ℕ)
      → AllFit ss
      → say_all ss out ≡ ok (out ++ bytes_for (all_entries ss))
  say_all_lem [] out h = ap (λ t. ok t) (sym (append-nil out))
  say_all_lem (s ∷ ss) out h =
      ap (λ o. o >>= say_all ss) (say_lem s out h.0)
      ∙ (say_all_lem ss (out ++ bytes_for (entries s)) h.1
          ∙ ap (λ t. ok t) (rw (bytes_for-append (entries s) (all_entries ss)) simp (append_assoc)))
