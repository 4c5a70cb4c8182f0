-- ===== src/Parser/Faults.antt =====
-- Where the parser does not do what it means to: a POST request at the end of several requests,
-- and a payload that holds the end marker and comes in two calls.
use http.Base.{
  ℕ, zero, suc, ◌+◌, ◌%◌, ◌^◌, ◌≤◌, ◌<◌, ◌≡◌, refl, ◌∙◌, true, false, none, some, List, [], ◌∷◌,
  ◌++◌, Bytes, find, length, length-append, arith, is_some, subst, get_elem?, ltb, leb, null, ◌==◌,
  take, drop, lt→ltb, le→leb, All, null,
}
use http.Strings.Split.{joined, IsToken, find-joined}
use http.Message.{Exception, out_of_range, http_1_1_end_marker}
use http.Parser.{
  Parser, Variant, returned, thrown, add_request, default_request, process_request_properties,
  process_from, append_buffer, process_length, take_next_payload, parse_request_properties,
}
use http.Parser.Append.{
  with_received, append_buffer-room, process_buffer-found, process_buffer-ready,
}
use http.Parser.Line.{IsGet}
use http.Parser.Pipeline.{process_requests-joined, process_from-gets, got_all}
use http.Parser.Post.{IsPostOf, posted, process_request_properties-post}
use http.Parser.Chunks.{feed}

get_elem?_past {ℓ} : {A : Type ℓ} (xs : List A) (i : ℕ) → length xs ≤ i → get_elem? xs i ≡ none
get_elem?_past [] i h = refl
get_elem?_past (x ∷ xs) zero h = absurd (omega arith)
get_elem?_past (x ∷ xs) (suc i) h = get_elem?_past xs i (omega arith)

get_elem?_last {ℓ} :
    {A : Type ℓ} (xs : List A) (y : A) → get_elem? (xs ++ y ∷ []) (length xs) ≡ some y
get_elem?_last [] y = refl
get_elem?_last (x ∷ xs) y = get_elem?_last xs y

module _ (v : Variant) where
  -- The last of several parts is a POST request: its payload is looked for in a part that is not
  -- there.
  process_request_properties-post_last :
      (p : Parser) (index n : ℕ) (t : Bytes) (g : IsPostOf v t n)
      → get_elem? p.splitted_requests index ≡ some t
      → length p.splitted_requests ≡ suc index
      → 0 < index
      → n % 2 ^ 16 ≤ 2048
      → (q : Parser) × (process_request_properties v p index ≡ thrown out_of_range q)
        × (q.requests ≡ p.requests)
  process_request_properties-post_last p index n t g found parts several small =
      let allowed : ltb 2048 (n % 2 ^ 16) ≡ false = ground arith in
      let not_one : (length p.splitted_requests == 1) ≡ false = ground arith in
      let inside : ltb index (length p.splitted_requests) ≡ true = lt→ltb _ _ (omega arith) in
      let past = get_elem?_past p.splitted_requests (suc index) (omega arith) in
      (
        record p {
          request_properties = posted v t g.request.first.url [];
          post_content_length = n % 2 ^ 16;
        },
        process_request_properties-post v p index n t g found
            ∙ unfold process_length in
              rw (allowed, not_one, inside)
                (unfold take_next_payload in rw (past, take_next_payload) refl),
        refl,
      )

  process_from-throws :
      (p q : Parser) (i n : ℕ) (e : Exception)
      → process_request_properties v p i ≡ thrown e q
      → process_from v (suc n) i p ≡ thrown e q
  unfolding process_from
  process_from-throws p q i n e h = rw (h, process_from) refl

  -- One or more GET requests and then a POST request that announces an allowed length, in one
  -- buffer, each with its end marker and with none behind the last, given to a parser that does
  -- not wait for a payload and has room for the bytes: after the GET requests are served
  -- `std::out_of_range` leaves the call, whatever stands behind the last end marker, the payload
  -- included.
  pub append_buffer-post_last :
      (p : Parser) (received : Bytes) (s : Bytes) (ss : List Bytes) (t rest : Bytes) (n : ℕ)
      (gs : All IsGet (s ∷ ss)) (g : IsPostOf v t n)
      → p.post_wait_content_length ≡ false
      → length p.http_request_buffer + length received ≤ p.http_request_buffer_max
      → p.http_request_buffer ++ received ≡ joined http_1_1_end_marker ((s ∷ ss) ++ t ∷ []) rest
      → All (IsToken http_1_1_end_marker) ((s ∷ ss) ++ t ∷ [])
      → find rest http_1_1_end_marker ≡ none
      → n % 2 ^ 16 ≤ 2048
      → (q : Parser) × (append_buffer v p received ≡ thrown out_of_range q)
        × (q.requests ≡ p.requests ++ got_all v (s ∷ ss) gs)
  append_buffer-post_last p received s ss t rest n gs g idle room spelled tokens clean small =
      let parts = (s ∷ ss) ++ t ∷ [] in
      let p1 = record (with_received p received) { splitted_requests = [] } in
      let start = record p1 { splitted_requests = parts; http_request_buffer = rest } in
      let found : is_some (find (p.http_request_buffer ++ received) http_1_1_end_marker) ≡ true =
        rw
          (
            spelled,
            find-joined http_1_1_end_marker s (joined http_1_1_end_marker (ss ++ t ∷ []) rest)
                tokens.0,
          )
          refl in
      let (q, run, serves, same) =
        process_from-gets v (s ∷ ss) gs 1 0 [] (t ∷ []) start refl refl in
      let count : length (s ∷ ss) + 1 ≡ length parts =
        omega (arith, length-append (s ∷ ss) (t ∷ [])) in
      let index : 0 + length (s ∷ ss) ≡ length (s ∷ ss) = omega arith in
      let (r, throws, kept) =
        process_request_properties-post_last q (length (s ∷ ss)) n t g
          (rw same (get_elem?_last (s ∷ ss) t))
          (rw same (omega (arith, length-append (s ∷ ss) (t ∷ [])))) (omega arith) small in
      (
        r,
        append_buffer-room v p received room
            ∙ process_buffer-found v (with_received p received) (ground arith) found
            ∙ process_requests-joined v p1 parts rest refl spelled tokens clean
            ∙ subst (λ k. process_from v k 0 start ≡ process_from v 1 (0 + length (s ∷ ss)) q) count
                run
            ∙ rw index (process_from-throws q r (length (s ∷ ss)) 0 out_of_range throws),
        kept ∙ serves.requests,
      )

  -- A part that is no request ends the loop.
  process_request_properties-refuses :
      (p : Parser) (t : Bytes)
      → get_elem? p.splitted_requests 0 ≡ some t
      → null t ≡ false
      → parse_request_properties t default_request ≡ none
      → process_request_properties v p 0
        ≡ returned false (record p { request_properties = default_request })
  unfolding process_request_properties
  process_request_properties-refuses p t found some_text bad =
      rw (found, process_request_properties)
        (rw some_text (rw (bad, process_request_properties) refl))

  process_from-refuses :
      (p : Parser) (t : Bytes) (ts : List Bytes) (n : ℕ)
      → p.splitted_requests ≡ t ∷ ts
      → null t ≡ false
      → parse_request_properties t default_request ≡ none
      → process_from v (suc n) 0 p
        ≡ returned tt (record p { request_properties = default_request; request_parse_error = 400 })
  unfolding process_from
  process_from-refuses p t ts n parts some_text bad =
      let refused = process_request_properties-refuses p t (rw parts refl) some_text bad in
      rw (refused, process_from) refl

  -- A parser that waits for a payload gets a part of it with one end marker inside: `t`, which is
  -- not empty and no request, the marker, and `rest`. A second call brings enough to fill up the
  -- payload, and there is room for the bytes of both calls. The marker and what stands before it
  -- are taken out of the payload, and with them go the properties of the waiting request: what is
  -- delivered is a request of unknown version and method, with no header and the URL `/`, and the
  -- error 400 is reported.
  pub feed-marker_in_payload :
      (p : Parser) (received t rest more : Bytes)
      → p.post_wait_content_length ≡ true
      → length p.http_request_buffer + length received ≤ p.http_request_buffer_max
      → p.http_request_buffer ++ received ≡ t ++ (http_1_1_end_marker ++ rest)
      → length p.http_request_buffer + length received < p.post_content_length
      → IsToken http_1_1_end_marker t
      → find rest http_1_1_end_marker ≡ none
      → null t ≡ false
      → parse_request_properties t default_request ≡ none
      → length rest + length more ≤ p.http_request_buffer_max
      → p.post_content_length ≤ length rest + length more
      → (q : Parser) × (feed v p (received ∷ more ∷ []) ≡ returned tt q)
        × (q.requests
            ≡ p.requests
              ++ record default_request { payload = take p.post_content_length (rest ++ more) }
                ∷ [])
        × (q.request_parse_error ≡ 400)
  feed-marker_in_payload p received t rest more waits room spelled short token clean some_text bad
        room2 enough =
      let p1 = record (with_received p received) { splitted_requests = [] } in
      let start = record p1 { splitted_requests = t ∷ []; http_request_buffer = rest } in
      let w = record start { request_properties = default_request; request_parse_error = 400 } in
      let found : is_some (find (p.http_request_buffer ++ received) http_1_1_end_marker) ≡ true =
        rw (spelled, find-joined http_1_1_end_marker t rest token) refl in
      let not_ready : leb p.post_content_length (length (p.http_request_buffer ++ received))
          ≡ false =
        ground (arith, length-append p.http_request_buffer received) in
      let ready : leb p.post_content_length (length (rest ++ more)) ≡ true =
        le→leb _ _ (omega (arith, length-append rest more)) in
      let first : append_buffer v p received ≡ returned tt w =
        append_buffer-room v p received room
        ∙ process_buffer-found v (with_received p received) (ground arith) found
        ∙ process_requests-joined v p1 (t ∷ []) rest refl spelled (token, tt) clean
        ∙ process_from-refuses start t [] 0 refl some_text bad in
      let second =
        append_buffer-room v w more room2
        ∙ process_buffer-ready v (with_received w more) (ground arith) in
      (
        add_request
            (record w {
              http_request_buffer = drop p.post_content_length (rest ++ more);
              post_wait_content_length = false;
            })
            (record default_request { payload = take p.post_content_length (rest ++ more) }),
        unfold feed in rw (first, feed) (rw (second, feed) refl),
        refl,
        refl,
      )
