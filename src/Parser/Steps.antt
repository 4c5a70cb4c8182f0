-- ===== src/Parser/Steps.antt =====
-- `_processRequestProperties` and `_processRequests` make progress in the sense of
-- Parser/Progress.
use http.Base.{
  ℕ, zero, suc, ==_iff, ◌≤◌, refl, sym, ap, inl, inr, Bool, true, false, Option, none, some, List,
  [], ◌∷◌, ◌++◌, append-nil, Bytes, length, length-append, get_elem?, arith, Bool-cases,
  Option-cases, ◌==◌, if◌then◌else◌, null,
}
use http.Message.{Request, http_1_1_end_marker}
use http.Strings.{split}
use http.Strings.Split.{split-IsSplit, joined}
use http.Parser.{
  Parser, Variant, Outcome, returned, thrown, process_parsed, process_request_properties,
  process_from, process_requests, parse_request_properties, default_request,
}
use http.Parser.Progress.{
  Ensures, Progress, Progress-refl, Progress-trans, Progress-same, Progress-one, Progress-after,
  process_post-Progress,
}

length-joined :
    (d : Bytes) (ts : List Bytes) (rest : Bytes) → length rest ≤ length (joined d ts rest)
length-joined d [] rest = omega arith
length-joined d (t ∷ ts) rest = omega (
  arith,
  length-joined d ts rest,
  length-append t (d ++ joined d ts rest),
  length-append d (joined d ts rest),
)

module _ (v : Variant) where
  open v use {parse_request_headers, parse_get_parameter}

  process_parsed-Progress :
      (p : Parser) (index : ℕ) (request : Bytes) (r : Request)
      → Ensures (Progress p) (process_parsed v p index request r)
  unfolding process_parsed
  process_parsed-Progress p index request r = elim (Bool-cases (r.http_version == 1)) [
    | inr old ↦ rw old (Progress-same p _ refl refl refl)
    | inl now ↦
        let version = (==_iff r.http_version 1).0 now in
        rw now (elim (Bool-cases (r.http_method == 0)) [
          | inl other ↦ rw other (Progress-same p _ refl refl refl)
          | inr known ↦ rw known (elim (Bool-cases (r.http_method == 1)) [
            | inl get ↦ rw get (
                Progress-one p _ _ refl (version, inl ((==_iff r.http_method 1).0 get)) refl
                  (omega arith))
            | inr not_get ↦ rw not_get (elim (Bool-cases (r.http_method == 2)) [
              | inl post ↦ rw post (
                  let q = record p {
                    request_properties = record r {
                      request_headers = parse_request_headers request r.request_headers;
                    };
                  } in
                  Progress-after p q _ (Progress-same p q refl refl refl)
                    (process_post-Progress q index version ((==_iff r.http_method 2).0 post)))
              | inr none_of ↦ rw none_of (Progress-same p _ refl refl refl)
            ])
          ])
        ])
  ]

  pub process_request_properties-Progress :
      (p : Parser) (index : ℕ) → Ensures (Progress p) (process_request_properties v p index)
  unfolding process_request_properties
  process_request_properties-Progress p index =
      elim (Option-cases (get_elem? p.splitted_requests index)) [
        | inl e ↦ rw (e, process_request_properties) (Progress-refl p)
        | inr (request, e) ↦
            rw (e, process_request_properties)
              (elim (Bool-cases (null request)) [
                | inl t ↦ rw t (Progress-refl p)
                | inr t ↦ rw t (by_line request (parse_request_properties request default_request))
              ])
      ]
    where
      by_line :
          (request : Bytes) (o : Option Request)
          → Ensures (Progress p) (elim o [
            | none ↦ returned false (record p { request_properties = default_request })
            | some r ↦ process_parsed v p index request r
          ])
      by_line request none = Progress-same p _ refl refl refl
      by_line request (some r) = process_parsed-Progress p index request r

  process_from-Progress : (n i : ℕ) (p : Parser) → Ensures (Progress p) (process_from v n i p)
  unfolding process_from
  process_from-Progress zero i p = Progress-refl p
  process_from-Progress (suc n) i p =
      by_result (process_request_properties v p i) (process_from-Progress n (suc i))
        (process_request_properties-Progress p i)
    where
      by_result :
          (o : Outcome Bool)
          → ((q : Parser) → Ensures (Progress q) (process_from v n (suc i) q))
          → Ensures (Progress p) o
          → Ensures (Progress p) (elim o [
            | thrown e q ↦ thrown e q
            | returned good q ↦
                let rest = process_from v n (suc i) q in
                if good then rest else returned tt (record q { request_parse_error = 400 })
          ])
      by_result (thrown e q) later h = h
      by_result (returned true q) later h = Progress-after p q _ h (later q)
      by_result (returned false q) later h =
          Progress-trans p q _ h (Progress-same q _ refl refl refl)

  pub process_requests-Progress : (p : Parser) → Ensures (Progress p) (process_requests v p)
  unfolding process_requests
  process_requests-Progress p =
      let (parts, rest) = split p.http_request_buffer http_1_1_end_marker p.splitted_requests in
      let q = record p { splitted_requests = parts; http_request_buffer = rest } in
      let cut =
        split-IsSplit p.http_request_buffer http_1_1_end_marker p.splitted_requests (omega arith) in
      let shorter : Progress p q = record {
        added = [];
        appended = sym (append-nil p.requests);
        served = tt;
        same_max = refl;
        shrinks =
            omega (arith, ap length cut.spells, length-joined http_1_1_end_marker cut.tokens rest);
      } in
      Progress-after p q _ shorter (process_from-Progress (length parts) 0 q)
