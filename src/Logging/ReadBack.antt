-- ===== src/Logging/ReadBack.antt =====
-- What was logged can be read from the log again.
use Prim.Native.Nat.{◌/◌}
use linux_tcp_servers.Common.{
  ℕ, zero, suc, ◌+◌, ◌*◌, ◌%◌, ltb, ◌==◌, ◌≡◌, refl, subst, true, if_rule, List, [], ◌∷◌, ◌++◌, map,
  append-nil, Option, none, some, ok, arith,
}
use linux_tcp_servers.Clients.{bytes_of}
use linux_tcp_servers.Logging.{decimal_in}
use linux_tcp_servers.Logging.Entries.{
  Level, bytes_for, read_log, read_log_lem, Indented, AllIndented, one_line, one_line_both,
  one_line-Indented,
}
use linux_tcp_servers.Logging.Said.{
  Line, text_of, Shown, Fits, AllFit, Said, said, client, worker_client, concatenated, say_all,
  client_texts, client_entry, client_entries, line_no, entries, all_entries, say_all_lem,
}

module _ (inet_ntop : ℕ → List ℕ → ℕ → Option (List ℕ)) where
  one_line-append :
      (t u : List ℕ) → one_line t ≡ true → one_line u ≡ true → one_line (t ++ u) ≡ true
  one_line-append [] u e f = f
  one_line-append (b ∷ t) u e f =
      let (other, rest) = one_line_both b t e in
      let same = one_line-append t u rest f in ground (arith, e, same)

  one_line-decimal_in : (digits n : ℕ) → one_line (decimal_in digits n) ≡ true
  unfolding decimal_in
  one_line-decimal_in zero n = refl
  one_line-decimal_in (suc digits) n =
      if_rule (λ t. one_line t ≡ true) (ltb n 10) (λ e. digit n)
        (λ e.
          one_line-append (decimal_in digits (n / 10)) ((48 + n % 10) ∷ [])
            (one_line-decimal_in digits (n / 10)) (digit (n % 10)))
    where
      digit : (m : ℕ) → one_line ((48 + m) ∷ []) ≡ true
      digit m = ground arith

  abbrev AllOneLine : List (List ℕ) → Type 0
  AllOneLine [] = Unit
  AllOneLine (t ∷ ts) = (one_line t ≡ true) × AllOneLine ts

  one_line-concatenated : (ts : List (List ℕ)) → AllOneLine ts → one_line (concatenated ts) ≡ true
  one_line-concatenated [] h = refl
  one_line-concatenated (t ∷ ts) h =
      one_line-append t (concatenated ts) h.0 (one_line-concatenated ts h.1)

  pub line_Indented : (t : List ℕ) → one_line t ≡ true → Indented t
  line_Indented t e = subst Indented (append-nil t) (one_line-Indented t [] e tt)

  AllIndented-append :
      (es fs : List (Level × List ℕ)) → AllIndented es → AllIndented fs → AllIndented (es ++ fs)
  AllIndented-append [] fs h k = k
  AllIndented-append ((level, t) ∷ es) fs h k = (h.0, AllIndented-append es fs h.1 k)

  Line-text : (o : Option (List ℕ)) → Line o → one_line (text_of o) ≡ true
  Line-text none h = absurd h
  Line-text (some text) h = h

  client_entry-Indented :
      (place : List (List ℕ)) (version family port : ℕ) (ip : List ℕ)
      → one_line (bytes_of "New IPv" ++ (version ∷ bytes_of " client connected: address=")) ≡ true
      → AllOneLine place
      → Line (inet_ntop family ip 16)
      → Indented (client_entry inet_ntop place version family port ip).1
  unfolding bytes_of
  client_entry-Indented place version family port ip v h line =
      one_line-Indented (concatenated place)
        (concatenated (client_texts inet_ntop version family port ip))
        (one_line-concatenated place h)
        (line_Indented (concatenated (client_texts inet_ntop version family port ip)) (
          one_line-concatenated (client_texts inet_ntop version family port ip) (
            v,
            (
              Line-text (inet_ntop family ip 16) line,
              (refl, (one_line-decimal_in 5 (port / 256 + 256 * (port % 256)), tt)),
            ),
          )))

  client_entries-AllIndented :
      (place4 place6 : List (List ℕ)) (family port : ℕ) (ip : List ℕ)
      → AllOneLine place4
      → AllOneLine place6
      → Shown inet_ntop family ip
      → AllIndented (client_entries inet_ntop place4 place6 family port ip)
  unfolding bytes_of
  client_entries-AllIndented place4 place6 family port ip e f g =
      if_rule AllIndented (family == 2)
        (λ x. (client_entry-Indented place4 b'4' family port ip refl e (g.0 x), tt))
        (λ x.
          if_rule AllIndented (family == 10)
            (λ y. (client_entry-Indented place6 b'6' family port ip refl f (g.1 y), tt)) (λ y. tt))

  entries-AllIndented : (s : Said) → Fits inet_ntop s → AllIndented (entries inet_ntop s)
  unfolding bytes_of
  entries-AllIndented (said level contents) h = (h, tt)
  entries-AllIndented (client family port ip prefix_log) h =
      client_entries-AllIndented (prefix_log ∷ []) (prefix_log ∷ []) family port ip (h.0, tt)
        (h.0, tt) h.1
  entries-AllIndented (worker_client family port ip prefix_log) h =
      client_entries-AllIndented (line_no inet_ntop prefix_log (bytes_of "388"))
        (line_no inet_ntop prefix_log (bytes_of "394")) family port ip
        (h.0, (refl, (refl, (refl, tt)))) (h.0, (refl, (refl, (refl, tt)))) h.1

  all_entries-AllIndented :
      (ss : List Said) → AllFit inet_ntop ss → AllIndented (all_entries inet_ntop ss)
  all_entries-AllIndented [] h = tt
  all_entries-AllIndented (s ∷ ss) h =
      AllIndented-append (entries inet_ntop s) (all_entries inet_ntop ss)
        (entries-AllIndented s h.0) (all_entries-AllIndented ss h.1)

  -- What a thread has logged, by whatever calls of the log functions, can be read from the log again:
  -- each call with its level and its whole text, in order; and for each client of the families IPv4 and
  -- IPv6 one information with its address and its port, of which the two bytes are exchanged. A line of
  -- a text after the first must begin with a tab, and for each such client `inet_ntop` must give a text
  -- of one line in the sixteen bytes that it is given for it.
  pub read_log-say_all :
      (ss : List Said)
      → AllFit inet_ntop ss
      → (out : List ℕ) × ((say_all inet_ntop ss [] ≡ ok out)
          × (read_log out ≡ map (λ e. some e) (all_entries inet_ntop ss)))
  read_log-say_all ss h = (
    bytes_for (all_entries inet_ntop ss),
    (
      say_all_lem inet_ntop ss [] h,
      read_log_lem (all_entries inet_ntop ss) (all_entries-AllIndented ss h),
    ),
  )
