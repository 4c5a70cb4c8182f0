-- ===== src/AsProcess/Count.antt =====
-- The number of interpreters, and what the start of the application processes does.
use http.Base.{
  ℕ, ◌+◌, ◌%◌, ◌^◌, ◌<◌, ◌≡◌, refl, sym, ◌∙◌, ap, Option, none, some, List, [], ◌∷◌, Bytes, arith,
  Option-cases, inl, inr,
}
use http.Configuration.{Configuration, NamespaceProps}
use http.Server.{Server, disable_signals}
use http.AsProcess.{
  count_interpreters, get_as_interpreter_count, fork_namespaces, fork_process_as_handler,
}

module _ (interpreters : Bytes → Option ℕ) where
  -- The sum over the namespaces, where each has a number.
  abbrev pub total : List (Bytes × NamespaceProps) → Option ℕ
  total [] = some 0
  total ((host, props) ∷ entries) = elim (interpreters host) [
    | none ↦ none
    | some n ↦ elim (total entries) [ none ↦ none | some m ↦ some (n + m) ]
  ]

  abbrev pub wrapped : ℕ → Option ℕ → Option ℕ
  wrapped count none = none
  wrapped count (some n) = some ((count + n) % 2 ^ 32)

  count_interpreters-total :
      (entries : List (Bytes × NamespaceProps)) (count : ℕ)
      → count < 2 ^ 32
      → count_interpreters interpreters count entries ≡ wrapped count (total entries)
  unfolding count_interpreters
  count_interpreters-total [] count small =
      let same : (count + 0) % 2 ^ 32 ≡ count = ground arith in ap some (sym same)
  count_interpreters-total ((host, props) ∷ entries) count small =
      elim (Option-cases (interpreters host)) [
        | inl n ↦ rw (n, count_interpreters, total) refl
        | inr (n, e) ↦
            rw (e, count_interpreters, total)
              (count_interpreters-total entries ((count + n % 2 ^ 32) % 2 ^ 32) (omega arith)
                ∙ elim (Option-cases (total entries)) [
                  | inl rest ↦ rw rest refl
                  | inr (m, rest) ↦ rw rest (
                      let same : ((count + n % 2 ^ 32) % 2 ^ 32 + m) % 2 ^ 32
                          ≡ (count + (n + m)) % 2 ^ 32 =
                        omega arith in
                      ap some same)
                ])
      ]

  -- The count of interpreters is the sum of the numbers of the namespaces modulo 2 ^ 32, and the
  -- conversion throws where one of them is no number.
  pub get_as_interpreter_count-total :
      (config : Configuration)
      → get_as_interpreter_count interpreters config ≡ wrapped 0 (total config.namespaces)
  unfolding get_as_interpreter_count
  get_as_interpreter_count-total config = count_interpreters-total config.namespaces 0 (omega arith)

fork_namespaces-same :
    (entries : List (Bytes × NamespaceProps)) (s : Server) → fork_namespaces entries s ≡ s
unfolding fork_namespaces
fork_namespaces-same [] s = refl
fork_namespaces-same (entry ∷ entries) s = fork_namespaces-same entries s

-- No process is started, and no child is registered: only the signals are ignored.
fork_process_as_handler-same : (s : Server) → fork_process_as_handler s ≡ disable_signals s
unfolding fork_process_as_handler
fork_process_as_handler-same s = fork_namespaces-same s.config.namespaces (disable_signals s)
