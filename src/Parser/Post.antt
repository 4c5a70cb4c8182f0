-- ===== src/Parser/Post.antt =====
-- A POST request and its payload, in one call or in two.
use http.Base.{
  ℕ, ◌+◌, ◌%◌, ◌^◌, ◌≤◌, ◌<◌, ◌≡◌, refl, ◌∙◌, ap, Bool, true, false, none, some, [], ◌∷◌, ◌++◌,
  Bytes, find, length, length-append, arith, is_some, if◌then◌else◌, get_elem?, ltb, leb, null,
  take, drop, le→leb,
}
use http.Strings.{is_digits}
use http.Strings.Split.{IsToken, find-joined}
use http.Message.{Request, http_1_1_end_marker, http_header_content_length, lookup, stoi, number}
use http.Parser.{
  Parser, Variant, Outcome, returned, thrown, add_request, start_pos, process_parsed,
  process_request_properties, process_from, append_buffer, process_post, process_length,
  take_payload,
}
use http.Strings.Rsplit.{words}
use http.Parser.Append.{
  with_received, append_buffer-room, process_buffer-found, process_buffer-ready,
}
use http.Parser.Line.{IsPost, parse_request_properties-post}
use http.Parser.Pipeline.{process_requests-joined}
use http.Parser.Chunks.{feed}

pub IsPost-not_null : (t : Bytes) → IsPost t → null t ≡ false
unfolding start_pos words
IsPost-not_null [] g = cc (g.first.line)
IsPost-not_null (c ∷ t) g = refl

-- The end of the loop behind the only part.
abbrev process_from_one : Outcome Bool → Outcome (Unit {0})
process_from_one (thrown e q) = thrown e q
process_from_one (returned true q) = returned tt q
process_from_one (returned false q) = returned tt (record q { request_parse_error = 400 })

module _ (v : Variant) where
  open v use {parse_request_headers}

  -- A POST request that announces `n` bytes.
  pub record IsPostOf (t : Bytes) (n : ℕ) : Type 0 where
    pub request : IsPost t
    pub value : Bytes
    pub announced : lookup http_header_content_length (parse_request_headers t []) ≡ some value
    pub digits : is_digits value ≡ true
    pub number_is : stoi value ≡ number n

  -- What the parser makes of it, with a payload.
  abbrev pub posted : Bytes → Bytes → Bytes → Request
  posted t url payload = record {
    http_version = 1;
    http_method = 2;
    request_headers = parse_request_headers t [];
    url = url;
    payload = payload;
    url_params = [];
  }

  -- The state in which the payload of the only part is looked for.
  abbrev alone : Parser → Bytes → Bytes → Bytes → ℕ → Parser
  alone p t url rest n = record p {
    splitted_requests = t ∷ [];
    http_request_buffer = rest;
    request_properties = posted t url [];
    post_content_length = n % 2 ^ 16;
  }

  pub process_request_properties-post :
      (p : Parser) (index n : ℕ) (t : Bytes) (g : IsPostOf t n)
      → get_elem? p.splitted_requests index ≡ some t
      → process_request_properties v p index
        ≡ process_length (record p { request_properties = posted t g.request.first.url [] }) index n
  unfolding process_request_properties process_parsed process_post
  process_request_properties-post p index n t g e =
      rw (e, process_request_properties)
        (rw (IsPost-not_null t g.request, parse_request_properties-post t g.request)
          (rw (g.announced, process_post) (rw g.digits (rw (g.number_is, process_post) refl))))

  process_from-last :
      (p : Parser) (i : ℕ)
      → process_from v 1 i p ≡ process_from_one (process_request_properties v p i)
  unfolding process_from
  process_from-last p i = last (process_request_properties v p i)
    where
      last :
          (o : Outcome Bool)
          → ◌≡◌ {A = Outcome (Unit {0})}
              (elim o [
                | thrown e q ↦ thrown e q
                | returned good q ↦
                    if good
                    then returned tt q
                    else returned tt (record q { request_parse_error = 400 })
              ])
              (process_from_one o)
      last (thrown e q) = refl
      last (returned true q) = refl
      last (returned false q) = refl

  -- The call on the end of one POST request and what follows it, up to the payload.
  append_buffer-single :
      (p : Parser) (received t rest : Bytes) (n : ℕ) (g : IsPostOf t n)
      → p.post_wait_content_length ≡ false
      → length p.http_request_buffer + length received ≤ p.http_request_buffer_max
      → p.http_request_buffer ++ received ≡ t ++ (http_1_1_end_marker ++ rest)
      → IsToken http_1_1_end_marker t
      → find rest http_1_1_end_marker ≡ none
      → n % 2 ^ 16 ≤ 2048
      → append_buffer v p received
        ≡ process_from_one (take_payload (alone p t g.request.first.url rest n))
  append_buffer-single p received t rest n g idle room spelled token clean small =
      let p1 = record (with_received p received) { splitted_requests = [] } in
      let start = record p1 { splitted_requests = t ∷ []; http_request_buffer = rest } in
      let found : is_some (find (p.http_request_buffer ++ received) http_1_1_end_marker) ≡ true =
        rw (spelled, find-joined http_1_1_end_marker t rest token) refl in
      let allowed : ltb 2048 (n % 2 ^ 16) ≡ false = ground arith in
      append_buffer-room v p received room
      ∙ process_buffer-found v (with_received p received) (ground arith) found
      ∙ process_requests-joined v p1 (t ∷ []) rest refl spelled (token, tt) clean
      ∙ process_from-last start 0
      ∙ ap process_from_one (
          process_request_properties-post start 0 n t g refl
          ∙ unfold process_length in rw allowed refl)

  -- The whole request in one call, to a parser that does not wait for a payload and has room for
  -- the bytes: a POST request that announces `n` bytes, and behind its end marker at least `n % 2
  -- ^ 16` bytes without another one, where that is at most 2048. The request is delivered with the
  -- first `n % 2 ^ 16` bytes as its payload, the rest is kept, and no error is reported.
  pub append_buffer-post :
      (p : Parser) (received t rest : Bytes) (n : ℕ) (g : IsPostOf t n)
      → p.post_wait_content_length ≡ false
      → length p.http_request_buffer + length received ≤ p.http_request_buffer_max
      → p.http_request_buffer ++ received ≡ t ++ (http_1_1_end_marker ++ rest)
      → IsToken http_1_1_end_marker t
      → find rest http_1_1_end_marker ≡ none
      → n % 2 ^ 16 ≤ 2048
      → n % 2 ^ 16 ≤ length rest
      → (q : Parser) × (append_buffer v p received ≡ returned tt q)
        × (q.requests ≡ p.requests ++ posted t g.request.first.url (take (n % 2 ^ 16) rest) ∷ [])
        × (q.http_request_buffer ≡ drop (n % 2 ^ 16) rest)
        × (q.post_wait_content_length ≡ false)
        × (q.request_parse_error ≡ p.request_parse_error)
  append_buffer-post p received t rest n g idle room spelled token clean small enough =
      let url = g.request.first.url in
      let ready : leb (n % 2 ^ 16) (length rest) ≡ true = ground arith in
      (
        add_request
            (record p {
              splitted_requests = t ∷ [];
              http_request_buffer = drop (n % 2 ^ 16) rest;
              request_properties = posted t url [];
              post_content_length = n % 2 ^ 16;
            })
            (posted t url (take (n % 2 ^ 16) rest)),
        append_buffer-single p received t rest n g idle room spelled token clean small
            ∙ unfold take_payload in rw ready refl,
        refl,
        refl,
        idle,
        refl,
      )

  -- The state that waits for the payload.
  abbrev waiting : Parser → Bytes → Bytes → Bytes → ℕ → Parser
  waiting p t url rest n = record (alone p t url rest n) { post_wait_content_length = true }

  append_buffer-waits :
      (p : Parser) (received t rest : Bytes) (n : ℕ) (g : IsPostOf t n)
      → p.post_wait_content_length ≡ false
      → length p.http_request_buffer + length received ≤ p.http_request_buffer_max
      → p.http_request_buffer ++ received ≡ t ++ (http_1_1_end_marker ++ rest)
      → IsToken http_1_1_end_marker t
      → find rest http_1_1_end_marker ≡ none
      → n % 2 ^ 16 ≤ 2048
      → length rest < n % 2 ^ 16
      → append_buffer v p received ≡ returned tt (waiting p t g.request.first.url rest n)
  append_buffer-waits p received t rest n g idle room spelled token clean small short =
      let not_ready : leb (n % 2 ^ 16) (length rest) ≡ false = ground arith in
      append_buffer-single p received t rest n g idle room spelled token clean small
      ∙ unfold take_payload in rw not_ready refl

  -- The request in two calls, to a parser that does not wait for a payload and has room for the
  -- bytes of each call: a POST request that announces `n` bytes, where `n % 2 ^ 16` is at most
  -- 2048. The first call ends within the payload, with no end marker in that part of it, and the
  -- second brings at least what is missing. The request is delivered with the `n % 2 ^ 16` bytes
  -- behind its end marker as its payload, whatever bytes the second call brings, and what is left
  -- of them is kept.
  pub feed-post :
      (p : Parser) (received t rest more : Bytes) (n : ℕ) (g : IsPostOf t n)
      → p.post_wait_content_length ≡ false
      → length p.http_request_buffer + length received ≤ p.http_request_buffer_max
      → p.http_request_buffer ++ received ≡ t ++ (http_1_1_end_marker ++ rest)
      → IsToken http_1_1_end_marker t
      → find rest http_1_1_end_marker ≡ none
      → n % 2 ^ 16 ≤ 2048
      → length rest < n % 2 ^ 16
      → length rest + length more ≤ p.http_request_buffer_max
      → n % 2 ^ 16 ≤ length rest + length more
      → (q : Parser) × (feed v p (received ∷ more ∷ []) ≡ returned tt q)
        × (q.requests
            ≡ p.requests ++ posted t g.request.first.url (take (n % 2 ^ 16) (rest ++ more)) ∷ [])
        × (q.http_request_buffer ≡ drop (n % 2 ^ 16) (rest ++ more))
        × (q.post_wait_content_length ≡ false)
  feed-post p received t rest more n g idle room spelled token clean small short room2 enough =
      let w = waiting p t g.request.first.url rest n in
      let ready : leb (n % 2 ^ 16) (length (rest ++ more)) ≡ true =
        le→leb _ _ (omega (arith, length-append rest more)) in
      (
        add_request
            (record p {
              splitted_requests = t ∷ [];
              http_request_buffer = drop (n % 2 ^ 16) (rest ++ more);
              post_wait_content_length = false;
              request_properties = posted t g.request.first.url [];
              post_content_length = n % 2 ^ 16;
            })
            (posted t g.request.first.url (take (n % 2 ^ 16) (rest ++ more))),
        unfold feed in
            rw
              (
                append_buffer-waits p received t rest n g idle room spelled token clean small short,
                feed,
              )
              (rw
                (
                  append_buffer-room v w more room2
                      ∙ process_buffer-ready v (with_received w more) ready,
                  feed,
                )
                refl),
        refl,
        refl,
        refl,
      )
