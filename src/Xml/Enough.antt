-- ===== src/Xml/Enough.antt =====
-- The rounds of the loop of splitMessages are enough.
use http.Base.{
  ℕ, zero, suc, ◌+◌, ◌-◌, ◌≤◌, ◌<◌, ◌≡◌, refl, sym, ap, inl, inr, true, false, Option, none, some,
  Bool, List, [], ◌∷◌, Bytes, find, take, drop, length, length-drop, arith, Option-cases,
  if◌then◌else◌,
}
use http.Strings.Search.{find-bound}
use http.Xml.{
  MessageSlice, split_messages, split_messages_loop, find_from, out_of_frame, nlap_xml_start_marker,
  nlap_xml_end_marker,
}

find_from-bound :
    (s d : Bytes) (pos p : ℕ)
    → 0 < length d
    → find_from s d pos ≡ some p
    → (pos ≤ p) × (p + length d ≤ length s)
find_from-bound s d pos p long h = elim (Option-cases (find (drop pos s) d)) [
  | inl n ↦ let e = missing n in absurd cc
  | inr (q, e) ↦
      let f = found q e in
      let at : pos + q ≡ p = cc in
      let fits = find-bound (drop pos s) d q e in
      let rest = length-drop pos s in (omega arith, omega arith)
]
  where
    missing : find (drop pos s) d ≡ none → find_from s d pos ≡ none
    missing n = unfold find_from in rw (n, find_from) refl

    found : (q : ℕ) → find (drop pos s) d ≡ some q → find_from s d pos ≡ some (pos + q)
    found q e = unfold find_from in rw (e, find_from) refl

-- Behind the end of the buffer no message is found, with whatever rounds.
loop-past :
    (g : ℕ) (input : Bytes) (cursor : ℕ) (last_end : Option ℕ)
    → length input < cursor
    → split_messages_loop g input cursor last_end ≡ ([], false)
unfolding split_messages_loop
loop-past zero input cursor last_end past = refl
loop-past (suc g) input cursor last_end past =
    elim (Option-cases (find_from input nlap_xml_start_marker cursor)) [
      | inl n ↦ rw (n, split_messages_loop) refl
      | inr (start, e) ↦
          let bound = find_from-bound input nlap_xml_start_marker cursor start (omega arith) e in
          absurd (omega (arith, bound.0, bound.1))
    ]

-- Two numbers of rounds, each more than the bytes that are left, give the same.
loop-same :
    (f g : ℕ) (input : Bytes) (cursor : ℕ) (last_end : Option ℕ)
    → length input < f + cursor
    → length input < g + cursor
    → split_messages_loop f input cursor last_end ≡ split_messages_loop g input cursor last_end
unfolding split_messages_loop
loop-same zero g input cursor last_end enough enough' =
    sym (loop-past g input cursor last_end (omega arith))
loop-same (suc f) zero input cursor last_end enough enough' =
    loop-past (suc f) input cursor last_end (omega arith)
loop-same (suc f) (suc g) input cursor last_end enough enough' =
    elim (Option-cases (find_from input nlap_xml_start_marker cursor)) [
      | inl n ↦ rw (n, split_messages_loop) refl
      | inr (start, e) ↦
          let bound = find_from-bound input nlap_xml_start_marker cursor start (omega arith) e in
          rw (e, split_messages_loop)
            (elim (Option-cases (find_from input nlap_xml_end_marker start)) [
              | inl n ↦ rw (n, split_messages_loop) refl
              | inr (end, e') ↦
                  let bound' =
                    find_from-bound input nlap_xml_end_marker start end (omega arith) e' in
                  let message_end = end + length nlap_xml_end_marker in
                  let slice = take (message_end - start) (drop start input) in
                  rw (e', split_messages_loop)
                    (ap
                      (λ (r : List MessageSlice × Bool).
                        if out_of_frame last_end start
                        then ([], true)
                        else (record { start = start; slice = slice } ∷ r.0, r.1))
                      (loop-same f g input message_end (some message_end)
                        (omega (arith, bound.0, bound'.0)) (omega (arith, bound.0, bound'.0))))
            ])
    ]

-- More rounds of the loop of splitMessages than the buffer has bytes give what the rounds of the
-- model give, so its loop never ends for want of rounds.
pub split_messages-enough :
    (f : ℕ) (input : Bytes)
    → length input < f
    → split_messages_loop f input 0 none ≡ split_messages input
unfolding split_messages
split_messages-enough f input more =
    loop-same f (suc (length input)) input 0 none (omega arith) (omega arith)
