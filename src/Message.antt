-- ===== src/Message.antt =====
-- The data of lib/http/httpparser.hpp and lib/http/httpconstants.hpp: requests, their fields and
-- the constants. An unordered_map is a list of pairs with distinct keys; its iteration order,
-- which the standard leaves open, is used by no function of the parser.
use http.Base.{
  ◌+◌, ◌*◌, ◌-◌, ◌^◌, leb, ℕ, Option, none, some, List, [], ◌∷◌, ◌++◌, Bytes, codes, equal,
  if◌then◌else◌, is_some,
}

abbrev pub Fields : Type 0
Fields = List (Bytes × Bytes)

-- `map.find(key)`, and the value of `map.at(key)` where it is present.
unfoldable pub lookup : Bytes → Fields → Option Bytes
unfolding equal
lookup k [] = none
lookup k ((j, v) ∷ m) = if equal j k then some v else lookup k m

-- `map.emplace(key, value)`: a key that is present keeps its value.
unfoldable pub emplace : Bytes → Bytes → Fields → Fields
unfolding lookup
emplace k v m = if is_some (lookup k m) then m else m ++ (k, v) ∷ []

pub record Request : Type 0 where
  pub http_version : ℕ
  pub http_method : ℕ
  pub request_headers : Fields
  pub url : Bytes
  pub payload : Bytes
  pub url_params : Fields

abbrev pub http_version_unknown : ℕ
http_version_unknown = 0

abbrev pub http_version_1_1 : ℕ
http_version_1_1 = 1

abbrev pub http_method_other : ℕ
http_method_other = 0

abbrev pub http_method_get : ℕ
http_method_get = 1

abbrev pub http_method_post : ℕ
http_method_post = 2

abbrev pub http_post_max_content_length : ℕ
http_post_max_content_length = 2048

abbrev pub http_error_bad_request : ℕ
http_error_bad_request = 400

abbrev pub http_1_1_end_marker : Bytes
http_1_1_end_marker = b'\r' ∷ b'\n' ∷ b'\r' ∷ b'\n' ∷ []

abbrev pub http_header_content_length : Bytes
http_header_content_length = codes "Content-Length"

-- The exceptions of the standard library that the parser does not catch.
pub data Exception : Type 0 where
  out_of_range invalid_argument : Exception

-- `stoi` on a text of digits: the number, or an exception for no digit at all and for a number
-- that an int does not hold.
pub data Parsed : Type 0 where
  number : ℕ → Parsed
  failed : Exception → Parsed

unfoldable pub decimal_from : ℕ → Bytes → ℕ
decimal_from acc [] = acc
decimal_from acc (c ∷ s) = decimal_from (acc * 10 + (c - b'0')) s

abbrev pub int_max : ℕ
int_max = 2 ^ 31 - 1

unfoldable pub stoi : Bytes → Parsed
unfolding decimal_from
stoi [] = failed invalid_argument
stoi (c ∷ s) =
    let n = decimal_from 0 (c ∷ s) in if leb n int_max then number n else failed out_of_range
