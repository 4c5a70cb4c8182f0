-- ===== src/Parser/Pipeline.antt =====
-- Several requests in one buffer.
use http.Base.{
  ℕ, suc, ◌+◌, ◌≤◌, ◌≡◌, refl, sym, ◌∙◌, ap, ap₂, true, false, none, some, List, [], ◌∷◌, ◌++◌,
  Bytes, find, length, length-append, append_assoc, append-nil, arith, is_some, subst, get_elem?,
  All, null,
}
use http.Strings.{split}
use http.Strings.Rsplit.{words}
use http.Strings.Split.{joined, IsToken, split-joined, find-joined}
use http.Message.{Request, http_1_1_end_marker}
use http.Parser.{
  Parser, Variant, returned, add_request, start_pos, process_parsed, process_request_properties,
  process_from, process_requests, append_buffer,
}
use http.Parser.Append.{with_received, append_buffer-room, process_buffer-found}
use http.Parser.Line.{IsGet, parse_request_properties-get}

get_elem?_middle {ℓ} :
    {A : Type ℓ} (xs : List A) (y : A) (ys : List A) → get_elem? (xs ++ y ∷ ys) (length xs) ≡ some y
get_elem?_middle [] y ys = refl
get_elem?_middle (x ∷ xs) y ys = get_elem?_middle xs y ys

pub IsGet-not_null : (t : Bytes) → IsGet t → null t ≡ false
unfolding start_pos words
IsGet-not_null [] g = cc (g.first.line)
IsGet-not_null (c ∷ t) g = refl

module _ (v : Variant) where
  open v use {parse_request_headers, parse_get_parameter}

  -- What the parser makes of a GET request for `url` with the text `t`.
  abbrev pub got : Bytes → Bytes → Request
  got t url = record {
    http_version = 1;
    http_method = 1;
    request_headers = parse_request_headers t [];
    url = url;
    payload = [];
    url_params = parse_get_parameter url [];
  }

  pub process_request_properties-get :
      (p : Parser) (index : ℕ) (t : Bytes) (g : IsGet t)
      → get_elem? p.splitted_requests index ≡ some t
      → process_request_properties v p index ≡ returned true (add_request p (got t g.first.url))
  unfolding process_request_properties process_parsed
  process_request_properties-get p index t g e =
      rw (e, process_request_properties)
        (rw (IsGet-not_null t g, parse_request_properties-get t g) refl)

  -- The requests that a list of GET texts asks for.
  unfoldable pub got_all : (ts : List Bytes) → All IsGet ts → List Request
  got_all [] gs = []
  got_all (t ∷ ts) (g, gs) = got t g.first.url ∷ got_all ts gs

  -- All of `rs` were served, and nothing else of the state has changed but for the parts and the
  -- properties of the last request.
  pub record Serves (p : Parser) (rs : List Request) (q : Parser) : Type 0 where
    pub requests : q.requests ≡ p.requests ++ rs
    pub buffer : q.http_request_buffer ≡ p.http_request_buffer
    pub waits : q.post_wait_content_length ≡ p.post_wait_content_length
    pub no_error : q.request_parse_error ≡ p.request_parse_error
    pub max : q.http_request_buffer_max ≡ p.http_request_buffer_max

  Serves-nil : (p : Parser) → Serves p [] p
  Serves-nil p = record {
    requests = sym (append-nil p.requests);
    buffer = refl;
    waits = refl;
    no_error = refl;
    max = refl;
  }

  Serves-cons :
      (p q : Parser) (r : Request) (rs : List Request)
      → Serves (add_request p r) rs q
      → Serves p (r ∷ rs) q
  Serves-cons p q r rs s = record {
    requests = s.requests ∙ append_assoc p.requests (r ∷ []) rs;
    buffer = s.buffer;
    waits = s.waits;
    no_error = s.no_error;
    max = s.max;
  }

  -- The loop serves the GET requests that are left, then goes on with what stands behind them.
  pub process_from-gets :
      (ts : List Bytes) (gs : All IsGet ts) (n i : ℕ) (before after : List Bytes) (p : Parser)
      → p.splitted_requests ≡ before ++ (ts ++ after)
      → i ≡ length before
      → (q : Parser) × (process_from v (length ts + n) i p ≡ process_from v n (i + length ts) q)
        × Serves p (got_all ts gs) q
        × (q.splitted_requests ≡ p.splitted_requests)
  unfolding process_from got_all
  process_from-gets [] gs n i before after p e l =
      (p, ap₂ (λ a b. process_from v a b p) (omega arith) (omega arith), Serves-nil p, refl)
  process_from-gets (t ∷ ts) (g, gs) n i before after p e l =
      let found : get_elem? p.splitted_requests i ≡ some t =
        rw (e, l) (get_elem?_middle before t (ts ++ after)) in
      let p' = add_request p (got t g.first.url) in
      let (q, run, serves, same) =
        process_from-gets ts gs n (suc i) (before ++ t ∷ []) after p'
          (e ∙ sym (append_assoc before (t ∷ []) (ts ++ after)))
          (omega (arith, length-append before (t ∷ []))) in
      let rounds : suc (length ts) + n ≡ suc (length ts + n) = omega arith in
      let index : suc i + length ts ≡ i + suc (length ts) = omega arith in
      (
        q,
        rw rounds (
            rw (process_request_properties-get p i t g found, process_from)
              (run ∙ ap (λ k. process_from v n k q) index)),
        Serves-cons p q _ _ serves,
        same,
      )

  -- The parts of a buffer that is whole requests and a rest.
  pub process_requests-joined :
      (p : Parser) (ts : List Bytes) (rest : Bytes)
      → p.splitted_requests ≡ []
      → p.http_request_buffer ≡ joined http_1_1_end_marker ts rest
      → All (IsToken http_1_1_end_marker) ts
      → find rest http_1_1_end_marker ≡ none
      → process_requests v p
        ≡ process_from v
            (length ts)
            0
            (record p { splitted_requests = ts; http_request_buffer = rest })
  unfolding process_requests
  process_requests-joined p ts rest none_yet spelled tokens clean =
      let cut : split p.http_request_buffer http_1_1_end_marker p.splitted_requests ≡ (ts, rest) =
        rw (none_yet, spelled)
          (split-joined http_1_1_end_marker ts rest [] (omega arith) tokens clean) in
      rw cut refl

  -- A parser that does not wait for a payload and has room for the bytes is given the end of a
  -- text of one or more GET requests, each with its end marker, and a rest without one. It serves
  -- all of them in order, keeps the rest in its buffer, still waits for no payload, and reports no
  -- error.
  pub append_buffer-gets :
      (p : Parser) (received : Bytes) (t : Bytes) (ts : List Bytes) (rest : Bytes)
      (gs : All IsGet (t ∷ ts))
      → p.post_wait_content_length ≡ false
      → length p.http_request_buffer + length received ≤ p.http_request_buffer_max
      → p.http_request_buffer ++ received ≡ joined http_1_1_end_marker (t ∷ ts) rest
      → All (IsToken http_1_1_end_marker) (t ∷ ts)
      → find rest http_1_1_end_marker ≡ none
      → (q : Parser) × (append_buffer v p received ≡ returned tt q)
        × (q.requests ≡ p.requests ++ got_all (t ∷ ts) gs)
        × (q.http_request_buffer ≡ rest)
        × (q.post_wait_content_length ≡ false)
        × (q.request_parse_error ≡ p.request_parse_error)
  append_buffer-gets p received t ts rest gs idle room spelled tokens clean =
      let p1 = record (with_received p received) { splitted_requests = [] } in
      let start = record p1 { splitted_requests = t ∷ ts; http_request_buffer = rest } in
      let found : is_some (find (p.http_request_buffer ++ received) http_1_1_end_marker) ≡ true =
        rw
          (spelled, find-joined http_1_1_end_marker t (joined http_1_1_end_marker ts rest) tokens.0)
          refl in
      let (q, run, serves, _) =
        process_from-gets (t ∷ ts) gs 0 0 [] [] start (sym (append-nil (t ∷ ts))) refl in
      let no_more : length (t ∷ ts) + 0 ≡ length (t ∷ ts) = omega arith in
      (
        q,
        append_buffer-room v p received room
            ∙ process_buffer-found v (with_received p received) (ground arith) found
            ∙ process_requests-joined p1 (t ∷ ts) rest refl spelled tokens clean
            ∙ subst (λ n. process_from v n 0 start ≡ process_from v 0 (0 + length (t ∷ ts)) q)
                no_more run
            ∙ unfold process_from in refl,
        serves.requests,
        serves.buffer,
        serves.waits ∙ idle,
        serves.no_error,
      )
