-- ===== src/Modern.antt =====
-- The C++23 build of the field parsers, lib/http/httpparser.cpp: header fields line by line from
-- a stream, URL parameters by the split of a string_view.
use http.Base.{
  ◌+◌, not, ◌&&◌, none, some, List, [], ◌∷◌, ◌++◌, Bytes, codes, find, length, take, drop, null,
  ltb, ◌==◌, if◌then◌else◌,
}
use http.Strings.{split_view}
use http.Message.{Fields, emplace}
use http.Parser.{Variant}

-- `getline(stream, line, '\n')` until it fails: `cur` is the line so far. The text behind the last
-- newline is a line only if it is not empty.
unfoldable pub get_lines : Bytes → Bytes → List Bytes
get_lines cur [] = if null cur then [] else cur ∷ []
get_lines cur (c ∷ s) =
    let ended = cur ∷ get_lines [] s in
    let longer = get_lines (cur ++ c ∷ []) s in if c == b'\n' then ended else longer

-- The line without a carriage return at its end.
unfoldable pub pop_cr : Bytes → Bytes
pop_cr [] = []
pop_cr (c ∷ []) = if c == b'\r' then [] else c ∷ []
pop_cr (c ∷ d ∷ s) = c ∷ pop_cr (d ∷ s)

-- One line of `_parseRequestHeaders`, behind the carriage return.
unfoldable pub header_line : Bytes → Fields → Fields
unfolding emplace find
header_line line result = elim (find line (codes ": ")) [
  | none ↦ result
  | some p ↦
      let value = drop (p + 2) line in
      if ltb 0 p && not (null value) then emplace (take p line) value result else result
]

unfoldable pub header_lines : List Bytes → Fields → Fields
unfolding header_line pop_cr
header_lines [] result = result
header_lines (line ∷ lines) result = header_lines lines (header_line (pop_cr line) result)

-- `_parseRequestHeaders`
unfoldable pub parse_request_headers : Bytes → Fields → Fields
unfolding header_lines get_lines
parse_request_headers request result = header_lines (get_lines [] request) result

-- One parameter of `_parseGETParameter`.
unfoldable pub parameter : Bytes → Fields → Fields
unfolding emplace find
parameter pair result = elim (find pair (codes "=")) [
  | none ↦ result
  | some p ↦
      if not (p == 0) && ltb p (length pair)
      then emplace (take p pair) (drop (p + 1) pair) result
      else result
]

unfoldable pub parameters : List Bytes → Fields → Fields
unfolding parameter
parameters [] result = result
parameters (pair ∷ pairs) result = parameters pairs (parameter pair result)

-- `_parseGETParameter`
unfoldable pub parse_get_parameter : Bytes → Fields → Fields
unfolding parameters split_view find
parse_get_parameter url result = elim (find url (codes "?")) [
  | none ↦ result
  | some p ↦
      if ltb p (length url)
      then parameters (split_view (drop (p + 1) url) (codes "&") []) result
      else result
]

unfoldable pub modern : Variant
unfolding parse_request_headers parse_get_parameter
modern = record {
  parse_request_headers = parse_request_headers;
  parse_get_parameter = parse_get_parameter;
}
