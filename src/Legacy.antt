-- ===== src/Legacy.antt =====
-- The C++11 build of the field parsers, lib/http/httpparser-cpp11.cpp: both cut a copy of their
-- text with the split that erases.
pub mod Build
use http.Base.{
  ℕ, Bool, ◌+◌, not, ◌&&◌, none, some, List, [], ◌∷◌, ◌++◌, Bytes, codes, find, length, take, drop,
  null, ltb, ◌==◌, if◌then◌else◌,
}
use http.Strings.{split, rsplit}
use http.Message.{Fields, emplace}
use http.Parser
use http.Parser.{Variant, Parser, Outcome}

-- `HeaderPair`, the value first: only a line with one delimiter counts.
unfoldable pub header_pair : List Bytes → Fields → Fields
unfolding emplace
header_pair (value ∷ key ∷ []) result =
    if not (null value) && not (null key) then emplace key value result else result
header_pair _ result = result

-- One line of `_parseRequestHeaders`.
unfoldable pub header_line : Bytes → Fields → Fields
unfolding header_pair rsplit
header_line line result = header_pair (rsplit line (length line) (codes ": ") []) result

unfoldable pub header_lines : List Bytes → Fields → Fields
unfolding header_line
header_lines [] result = result
header_lines (line ∷ lines) result = header_lines lines (header_line line result)

-- `_parseRequestHeaders`
unfoldable pub parse_request_headers : Bytes → Fields → Fields
unfolding header_lines split
parse_request_headers request result =
    let (lines, rest) = split request (codes "\r\n") [] in header_lines (lines ++ rest ∷ []) result

-- One parameter of `_parseGETParameter`.
unfoldable pub parameter : Bytes → Fields → Fields
unfolding emplace find
parameter pair result = elim (find pair (codes "=")) [
  | none ↦ result
  | some p ↦
      if not (p == 0) && ltb p (length pair)
      then emplace (take p pair) (drop (p + 1) pair) result
      else result
]

unfoldable pub parameters : List Bytes → Fields → Fields
unfolding parameter
parameters [] result = result
parameters (pair ∷ pairs) result = parameters pairs (parameter pair result)

-- `_parseGETParameter`
unfoldable pub parse_get_parameter : Bytes → Fields → Fields
unfolding parameters split find
parse_get_parameter url result = elim (find url (codes "?")) [
  | none ↦ result
  | some p ↦
      if ltb p (length url)
      then (let (pairs, rest) = split (drop (p + 1) url) (codes "&") [] in
          parameters (if null rest then pairs else pairs ++ rest ∷ []) result)
      else result
]

unfoldable pub legacy : Variant
unfolding parse_request_headers parse_get_parameter
legacy = record {
  parse_request_headers = parse_request_headers;
  parse_get_parameter = parse_get_parameter;
}

-- The rest of the C++11 build is the text of the other build, with these field parsers.
unfoldable pub process_request_properties : Parser → ℕ → Outcome Bool
unfolding legacy
process_request_properties p index = Parser.process_request_properties legacy p index

unfoldable pub process_requests : Parser → Outcome (Unit {0})
unfolding legacy
process_requests p = Parser.process_requests legacy p

unfoldable pub append_buffer : Parser → Bytes → Outcome (Unit {0})
unfolding legacy
append_buffer p received = Parser.append_buffer legacy p received
