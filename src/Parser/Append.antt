-- ===== src/Parser/Append.antt =====
-- `appendBuffer` keeps the buffer within its maximum and the requests that it has, in every state.
use http.Base.{
  ltb-false, drop, true, none, lt→ltb, ◌<◌, ◌&&◌, ◌+◌, ◌≤◌, ◌≡◌, refl, sym, inl, inr, Bool, false,
  List, [], ◌∷◌, ◌++◌, append-nil, Bytes, find, length, length-append, length-drop, take, All,
  arith, Bool-cases, ltb, leb, is_some,
}
use http.Message.{Request, http_1_1_end_marker}
use http.Parser.Progress.{Ensures, IsServed, Progress, Progress-same, Progress-after}
use http.Parser.Steps.{process_requests-Progress}
use http.Parser.{
  add_request, process_requests, Parser, Variant, Outcome, returned, thrown, process_buffer,
  append_buffer,
}

-- The state after a call: the requests of `p` and some more, and a buffer within its maximum.
pub record Kept (p q : Parser) : Type 0 where
  pub added : List Request
  pub appended : q.requests ≡ p.requests ++ added
  pub served : All IsServed added
  pub same_max : q.http_request_buffer_max ≡ p.http_request_buffer_max
  pub fits : length q.http_request_buffer ≤ q.http_request_buffer_max

-- The payload of a waiting request has come.
abbrev pub is_ready : Parser → Bool
is_ready p = p.post_wait_content_length && leb p.post_content_length (length p.http_request_buffer)

abbrev pub with_received : Parser → Bytes → Parser
with_received p received = record p { http_request_buffer = p.http_request_buffer ++ received }

Kept-from :
    (p q : Parser) (received : Bytes)
    → length p.http_request_buffer + length received ≤ p.http_request_buffer_max
    → Progress (with_received p received) q
    → Kept p q
Kept-from p q received room h = record {
  added = h.added;
  appended = h.appended;
  served = h.served;
  same_max = h.same_max;
  fits = omega (arith, h.shrinks, h.same_max, length-append p.http_request_buffer received);
}

Kept-after :
    (p : Parser) (received : Bytes) (o : Outcome (Unit {0}))
    → length p.http_request_buffer + length received ≤ p.http_request_buffer_max
    → Ensures (Progress (with_received p received)) o
    → Ensures (Kept p) o
Kept-after p received (returned a q) room h = Kept-from p q received room h
Kept-after p received (thrown e q) room h = Kept-from p q received room h

-- The weaker statement for every state.
pub record Bounded (p q : Parser) : Type 0 where
  pub more : List Request
  pub extends : q.requests ≡ p.requests ++ more
  pub max_same : q.http_request_buffer_max ≡ p.http_request_buffer_max
  pub within : length q.http_request_buffer ≤ q.http_request_buffer_max

Bounded-of_Kept : (p : Parser) (o : Outcome (Unit {0})) → Ensures (Kept p) o → Ensures (Bounded p) o
Bounded-of_Kept p (returned a q) k = record {
  more = k.added;
  extends = k.appended;
  max_same = k.same_max;
  within = k.fits;
}
Bounded-of_Kept p (thrown e q) k = record {
  more = k.added;
  extends = k.appended;
  max_same = k.same_max;
  within = k.fits;
}

module _ (v : Variant) where
  process_buffer-Progress :
      (p : Parser) → is_ready p ≡ false → Ensures (Progress p) (process_buffer v p)
  unfolding process_buffer
  process_buffer-Progress p idle =
      let cleared = record p { splitted_requests = [] } in
      let to_cleared : Progress p cleared = Progress-same p cleared refl refl refl in
      rw idle (elim (Bool-cases (is_some (find p.http_request_buffer http_1_1_end_marker))) [
        | inl t ↦ rw t (Progress-after p cleared _ to_cleared (process_requests-Progress v cleared))
        | inr t ↦ rw t to_cleared
      ])

  -- A parser that does not wait for a payload and whose buffer is within its maximum, given any
  -- bytes: whether the call returns or throws, the requests so far stay, each added one is an
  -- HTTP/1.1 request, a GET or a POST whose payload has at most 2048 bytes, and the buffer stays
  -- within its maximum, which does not change.
  pub append_buffer-Kept :
      (p : Parser) (received : Bytes)
      → p.post_wait_content_length ≡ false
      → length p.http_request_buffer ≤ p.http_request_buffer_max
      → Ensures (Kept p) (append_buffer v p received)
  unfolding append_buffer
  append_buffer-Kept p received idle fits =
      elim (Bool-cases
        (ltb p.http_request_buffer_max (length p.http_request_buffer + length received))) [
          | inl t ↦ rw t (record {
            added = [];
            appended = sym (append-nil p.requests);
            served = tt;
            same_max = refl;
            fits = fits;
          })
          | inr t ↦ rw t (
              Kept-after p received _ (ltb-false _ _ t)
                (process_buffer-Progress (with_received p received) (ground arith)))
        ]

  process_buffer-Bounded :
      (p : Parser) (received : Bytes)
      → length p.http_request_buffer + length received ≤ p.http_request_buffer_max
      → Ensures (Bounded p) (process_buffer v (with_received p received))
  process_buffer-Bounded p received room = elim (Bool-cases (is_ready (with_received p received))) [
    | inl ready ↦
        unfold process_buffer in
        rw ready (record {
          more =
              record p.request_properties {
                payload = take p.post_content_length (p.http_request_buffer ++ received);
              }
              ∷ [];
          extends = refl;
          max_same = refl;
          within = omega (
            arith,
            length-drop p.post_content_length (p.http_request_buffer ++ received),
            length-append p.http_request_buffer received,
          );
        })
    | inr idle ↦
        Bounded-of_Kept p _
          (Kept-after p received _ room (process_buffer-Progress (with_received p received) idle))
  ]

  -- In every state whose buffer is within its maximum, one that waits for a payload included, and
  -- whether the call returns or throws: the requests delivered so far stay in front of those that
  -- are added, and the buffer stays within its maximum, which does not change.
  pub append_buffer-Bounded :
      (p : Parser) (received : Bytes)
      → length p.http_request_buffer ≤ p.http_request_buffer_max
      → Ensures (Bounded p) (append_buffer v p received)
  unfolding append_buffer
  append_buffer-Bounded p received fits =
      elim (Bool-cases
        (ltb p.http_request_buffer_max (length p.http_request_buffer + length received))) [
          | inl t ↦ rw t (record {
            more = [];
            extends = sym (append-nil p.requests);
            max_same = refl;
            within = fits;
          })
          | inr t ↦ rw t (process_buffer-Bounded p received (ltb-false _ _ t))
        ]

  -- The branches of the call, as equations.
  pub append_buffer-full :
      (p : Parser) (received : Bytes)
      → p.http_request_buffer_max < length p.http_request_buffer + length received
      → append_buffer v p received ≡ returned tt p
  unfolding append_buffer
  append_buffer-full p received h = rw (lt→ltb _ _ h) refl

  pub append_buffer-room :
      (p : Parser) (received : Bytes)
      → length p.http_request_buffer + length received ≤ p.http_request_buffer_max
      → append_buffer v p received ≡ process_buffer v (with_received p received)
  unfolding append_buffer
  append_buffer-room p received h =
      let room : ltb p.http_request_buffer_max (length p.http_request_buffer + length received)
          ≡ false =
        ground arith in
      rw room refl

  pub process_buffer-found :
      (p : Parser)
      → is_ready p ≡ false
      → is_some (find p.http_request_buffer http_1_1_end_marker) ≡ true
      → process_buffer v p ≡ process_requests v (record p { splitted_requests = [] })
  unfolding process_buffer
  process_buffer-found p idle h = rw (idle, h) refl

  pub process_buffer-none :
      (p : Parser)
      → is_ready p ≡ false
      → find p.http_request_buffer http_1_1_end_marker ≡ none
      → process_buffer v p ≡ returned tt (record p { splitted_requests = [] })
  unfolding process_buffer
  process_buffer-none p idle h = rw idle (rw (h, is_some) refl)

  pub process_buffer-ready :
      (p : Parser)
      → is_ready p ≡ true
      → process_buffer v p
        ≡ returned tt (
            add_request
              (record p {
                http_request_buffer = drop p.post_content_length p.http_request_buffer;
                post_wait_content_length = false;
              })
              (record p.request_properties {
                payload = take p.post_content_length p.http_request_buffer;
              }))
  unfolding process_buffer
  process_buffer-ready p ready = rw ready refl
