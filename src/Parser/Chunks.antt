-- ===== src/Parser/Chunks.antt =====
-- How the received bytes are cut into calls: TCP may deliver a request in any pieces.
use http.Base.{
  ◌+◌, ◌≤◌, ◌≡◌, refl, sym, ◌∙◌, ap, false, none, List, [], ◌∷◌, ◌++◌, Bytes, find, length,
  length-append, append_assoc, arith, Option-cases, inl, inr,
}
use http.Strings.Search.{find-append}
use http.Message.{http_1_1_end_marker}
use http.Parser.{Parser, Variant, Outcome, returned, thrown, process_buffer, append_buffer}
use http.Parser.Append.{with_received, append_buffer-room, process_buffer-none, is_ready}

-- A text with no occurrence has none in its front part.
find-none_front : (s r d : Bytes) → find (s ++ r) d ≡ none → find s d ≡ none
find-none_front s r d h = elim (Option-cases (find s d)) [
  | inl n ↦ n
  | inr (p, e) ↦ absurd (cc (find-append s r d p e))
]

abbrev pub concat : List Bytes → Bytes
concat [] = []
concat (c ∷ cs) = c ++ concat cs

module _ (v : Variant) where
  -- The calls of `appendBuffer` for one chunk after the other; an exception ends them.
  unfoldable pub feed : Parser → List Bytes → Outcome (Unit {0})
  feed p [] = returned tt p
  feed p (c ∷ cs) = elim (append_buffer v p c) [
    | thrown e q ↦ thrown e q
    | returned a q ↦ feed q cs
  ]

  -- The state that has stored bytes and not looked at them.
  abbrev stored : Parser → Bytes → Parser
  stored p c = record (with_received p c) { splitted_requests = [] }

  append_buffer-stored :
      (p : Parser) (c : Bytes)
      → p.post_wait_content_length ≡ false
      → length p.http_request_buffer + length c ≤ p.http_request_buffer_max
      → find (p.http_request_buffer ++ c) http_1_1_end_marker ≡ none
      → append_buffer v p c ≡ returned tt (stored p c)
  append_buffer-stored p c idle room clean =
      append_buffer-room v p c room ∙ process_buffer-none v (with_received p c) (ground arith) clean

  -- The parts of an earlier call are not looked at again.
  process_buffer-parts :
      (p : Parser) (parts : List Bytes)
      → is_ready p ≡ false
      → process_buffer v (record p { splitted_requests = parts }) ≡ process_buffer v p
  unfolding process_buffer
  process_buffer-parts p parts idle = rw idle refl

  append_buffer-stored_more :
      (p : Parser) (c d : Bytes)
      → p.post_wait_content_length ≡ false
      → length p.http_request_buffer + length (c ++ d) ≤ p.http_request_buffer_max
      → append_buffer v (stored p c) d ≡ append_buffer v p (c ++ d)
  append_buffer-stored_more p c d idle room =
      append_buffer-room v (stored p c) d
        (omega (arith, length-append c d, length-append p.http_request_buffer c))
      ∙ rw append_assoc (process_buffer-parts (with_received p (c ++ d)) [] (ground arith))
      ∙ sym (append_buffer-room v p (c ++ d) room)

  feed_one : (p : Parser) (c : Bytes) → feed p (c ∷ []) ≡ append_buffer v p c
  unfolding feed
  feed_one p c = one (append_buffer v p c)
    where
      one :
          (o : Outcome (Unit {0}))
          → ◌≡◌ {A = Outcome (Unit {0})}
              (elim o [ thrown e q ↦ thrown e q | returned a q ↦ returned tt q ])
              o
      one (returned tt q) = refl
      one (thrown e q) = refl

  -- Let a parser not wait for a payload, and let there be room for all that comes. If the bytes
  -- before the last chunk complete no request, it makes no difference how they were cut into
  -- chunks: the calls end as one call with all the bytes would.
  pub feed-append_buffer :
      (p : Parser) (cs : List Bytes) (last : Bytes)
      → p.post_wait_content_length ≡ false
      → length p.http_request_buffer + length (concat cs ++ last) ≤ p.http_request_buffer_max
      → find (p.http_request_buffer ++ concat cs) http_1_1_end_marker ≡ none
      → feed p (cs ++ last ∷ []) ≡ append_buffer v p (concat cs ++ last)
  unfolding feed
  feed-append_buffer p [] last idle room clean = feed_one p last
  feed-append_buffer p (c ∷ cs) last idle room clean =
      let room_c : length p.http_request_buffer + length c ≤ p.http_request_buffer_max =
        omega (arith, length-append (c ++ concat cs) last, length-append c (concat cs)) in
      let joined_up : (p.http_request_buffer ++ c) ++ concat cs
          ≡ p.http_request_buffer ++ (c ++ concat cs) =
        append_assoc p.http_request_buffer c (concat cs) in
      let clean_c =
        find-none_front (p.http_request_buffer ++ c) (concat cs) http_1_1_end_marker
          (rw joined_up clean) in
      let later =
        feed-append_buffer (stored p c) cs last idle
          (omega (
            arith,
            length-append p.http_request_buffer c,
            length-append (c ++ concat cs) last,
            length-append c (concat cs),
            length-append (concat cs) last,
          ))
          (rw joined_up clean) in
      rw (append_buffer-stored p c idle room_c clean_c, feed)
        (later
          ∙ append_buffer-stored_more p c (concat cs ++ last) idle (rw (← append_assoc) room)
          ∙ ap (append_buffer v p) (sym (append_assoc c (concat cs) last)))
