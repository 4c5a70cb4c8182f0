-- ===== src/Parser.antt =====
-- class HTTPParser of lib/http/httpparser.cpp and lib/http/httpparser-cpp11.cpp. The two builds
-- differ in how they read header fields and URL parameters, which is the argument `Variant`; all
-- else is the same text in both files.
pub mod Progress
pub mod Steps
pub mod Append
pub mod Line
pub mod Pipeline
pub mod Chunks
pub mod Post
pub mod Faults
use http.Base.{
  ℕ, zero, suc, ◌&&◌, ◌+◌, ◌%◌, ◌^◌, Bool, true, false, not, Option, none, some, List, [], ◌∷◌,
  ◌++◌, Bytes, codes, find, length, take, drop, null, get_elem?, set, ltb, leb, ◌==◌, if◌then◌else◌,
  is_some,
}
use http.Strings.{rsplit, split, is_digits}
use http.Message.{
  Fields, lookup, Request, http_version_unknown, http_version_1_1, http_method_other,
  http_method_get, http_method_post, http_post_max_content_length, http_error_bad_request,
  http_1_1_end_marker, http_header_content_length, Exception, out_of_range, stoi, Parsed, number,
  failed,
}

-- `_RequestHeaders` is a member that no function uses.
pub record Parser : Type 0 where
  pub splitted_requests : List Bytes
  pub request_count_get : ℕ
  pub request_count_post : ℕ
  pub request_parse_error : ℕ
  pub post_wait_content_length : Bool
  pub post_content_length : ℕ
  pub http_request_buffer : Bytes
  pub http_request_buffer_max : ℕ
  pub request_properties : Request
  pub requests : List Request

-- `getRequests`, and what `getRequestsPtr` points to.
abbrev pub get_requests : Parser → List Request
get_requests p = p.requests

-- A call returns a value, or an exception leaves it; in both cases with the state it has made.
pub data Outcome {ℓ} (A : Type ℓ) : Type ℓ where
  returned : A → Parser → Outcome A
  thrown : Exception → Parser → Outcome A

-- What the two builds do differently.
pub record Variant : Type 0 where
  pub parse_request_headers : Bytes → Fields → Fields
  pub parse_get_parameter : Bytes → Fields → Fields

-- The constructor. `unset` is what the member `_RequestProperties` holds before it is assigned:
-- its two numbers are not initialised.
unfoldable pub new_parser : ℕ → Request → Parser
new_parser buffer_size unset = record {
  splitted_requests = [];
  request_count_get = 0;
  request_count_post = 0;
  request_parse_error = 0;
  post_wait_content_length = false;
  post_content_length = 0;
  http_request_buffer = [];
  http_request_buffer_max = buffer_size;
  request_properties = unset;
  requests = [];
}

-- The line that the request begins with; without a line end, all of it.
unfoldable pub start_pos : Bytes → ℕ
unfolding find
start_pos request = elim (find request (codes "\r\n")) [ none ↦ length request | some p ↦ p ]

-- `SplitResult`, the last word of the line first; `none` is the result false.
unfoldable pub base_properties : List Bytes → Request → Option Request
unfolding find
base_properties (version ∷ url ∷ method ∷ []) props = some (record props {
  http_version =
      if is_some (find version (codes "HTTP/1.1")) then http_version_1_1 else props.http_version;
  http_method =
      if is_some (find method (codes "GET"))
      then http_method_get
      else if is_some (find method (codes "POST"))
      then http_method_post
      else props.http_method;
  url = url;
})
base_properties _ props = none

unfoldable pub parse_request_properties : Bytes → Request → Option Request
unfolding start_pos rsplit base_properties
parse_request_properties request props =
    base_properties (rsplit request (start_pos request) (codes " ") []) props

abbrev pub default_request : Request
default_request = record {
  http_version = http_version_unknown;
  http_method = http_method_other;
  request_headers = [];
  url = codes "/";
  payload = [];
  url_params = [];
}

abbrev pub add_request : Parser → Request → Parser
add_request p r = record p { request_properties = r; requests = p.requests ++ r ∷ [] }

-- A single POST request, whose payload stands in the buffer or is still to come.
unfoldable pub take_payload : Parser → Outcome Bool
take_payload p =
    let n = p.post_content_length in
    let props = p.request_properties in
    if leb n (length p.http_request_buffer)
    then returned true (
        add_request (record p { http_request_buffer = drop n p.http_request_buffer })
          (record props { payload = take n p.http_request_buffer }))
    else returned true (record p { post_wait_content_length = true })

-- One of several requests, whose payload begins the next part; `at` throws past the last part.
unfoldable pub take_next_payload : Parser → ℕ → Outcome Bool
take_next_payload p index =
    let n = p.post_content_length in
    let props = p.request_properties in
    elim (get_elem? p.splitted_requests (suc index)) [
      | none ↦ thrown out_of_range p
      | some next ↦
          if leb n (length next)
          then returned true (
              add_request
                (record p { splitted_requests = set p.splitted_requests (suc index) (drop n next) })
                (record props { payload = take n next }))
          else returned false p
    ]

-- The length is kept in 16 bits.
unfoldable pub process_length : Parser → ℕ → ℕ → Outcome Bool
unfolding take_payload take_next_payload
process_length p index n =
    let q = record p { post_content_length = n % 2 ^ 16 } in
    if ltb http_post_max_content_length q.post_content_length
    then returned false q
    else if length q.splitted_requests == 1
    then take_payload q
    else if ltb index (length q.splitted_requests)
    then take_next_payload q index
    else returned true q

unfoldable pub process_post : Parser → ℕ → Outcome Bool
unfolding process_length lookup is_digits stoi
process_post p index =
    elim (lookup http_header_content_length p.request_properties.request_headers) [
      | none ↦ returned false p
      | some value ↦
          if not (is_digits value)
          then returned false p
          else elim (stoi value) [ failed e ↦ thrown e p | number n ↦ process_length p index n ]
    ]

module _ (v : Variant) where
  open v use {parse_request_headers, parse_get_parameter}

  -- A request line that was read, with `r` as `_RequestProperties`.
  unfoldable pub process_parsed : Parser → ℕ → Bytes → Request → Outcome Bool
  unfolding process_post
  process_parsed p index request r =
      let q = record p { request_properties = r } in
      let with_headers = record r {
        request_headers = parse_request_headers request r.request_headers;
      } in
      let with_params = record with_headers {
        url_params = parse_get_parameter r.url r.url_params;
      } in
      if not (r.http_version == http_version_1_1)
      then returned false q
      else if r.http_method == http_method_other
      then returned false q
      else if r.http_method == http_method_get
      then returned true (add_request p with_params)
      else if r.http_method == http_method_post
      then process_post (record p { request_properties = with_headers }) index
      else returned true (record p { request_properties = with_headers })

  -- `_processRequestProperties`
  unfoldable pub process_request_properties : Parser → ℕ → Outcome Bool
  unfolding process_parsed parse_request_properties
  process_request_properties p index = elim (get_elem? p.splitted_requests index) [
    | none ↦ thrown out_of_range p
    | some request ↦
        let q = record p { request_properties = default_request } in
        if null request
        then returned false p
        else elim (parse_request_properties request default_request) [
          | none ↦ returned false q
          | some r ↦ process_parsed p index request r
        ]
  ]

  -- The loop over the parts: `n` rounds are left, and `i` is the index.
  unfoldable pub process_from : ℕ → ℕ → Parser → Outcome (Unit {0})
  unfolding process_request_properties
  process_from zero i p = returned tt p
  process_from (suc n) i p = elim (process_request_properties p i) [
    | thrown e q ↦ thrown e q
    | returned good q ↦
        let rest = process_from n (suc i) q in
        if good
        then rest
        else returned tt (record q { request_parse_error = http_error_bad_request })
  ]

  -- `_processRequests`
  unfoldable pub process_requests : Parser → Outcome (Unit {0})
  unfolding process_from split
  process_requests p =
      let (parts, rest) = split p.http_request_buffer http_1_1_end_marker p.splitted_requests in
      process_from (length parts) 0
        (record p { splitted_requests = parts; http_request_buffer = rest })

  -- `appendBuffer` behind its first test, on the buffer with the received bytes.
  unfoldable pub process_buffer : Parser → Outcome (Unit {0})
  unfolding process_requests find
  process_buffer p =
      let n = p.post_content_length in
      let props = p.request_properties in
      let cleared = record p { splitted_requests = [] } in
      if p.post_wait_content_length && leb n (length p.http_request_buffer)
      then returned tt (
          add_request
            (record p {
              http_request_buffer = drop n p.http_request_buffer;
              post_wait_content_length = false;
            })
            (record props { payload = take n p.http_request_buffer }))
      else if is_some (find p.http_request_buffer http_1_1_end_marker)
      then process_requests cleared
      else returned tt cleared

  -- `appendBuffer(BufferRef, RecvBytes)`, on the `RecvBytes` bytes that it reads.
  unfoldable pub append_buffer : Parser → Bytes → Outcome (Unit {0})
  unfolding process_buffer
  append_buffer p received =
      if ltb p.http_request_buffer_max (length p.http_request_buffer + length received)
      then returned tt p
      else process_buffer (record p { http_request_buffer = p.http_request_buffer ++ received })
