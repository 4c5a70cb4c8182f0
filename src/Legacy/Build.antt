-- ===== src/Legacy/Build.antt =====
-- What lib/http/httpparser-cpp11.hpp and lib/http/httpparser-cpp11.cpp repeat of the other build.
use http.Base.{ℕ, Bool, Option, List, Bytes}
use http.Message.{Request, Fields}
use http.Parser.{Parser}
use http.Strings
use http.Json
use http.Parser

-- `RequestProperties_t` and `HTTPParser` have the members of the other build.
abbrev pub RequestProperties : Type 0
RequestProperties = Request

abbrev pub HttpParser : Type 0
HttpParser = Parser

abbrev pub split : Bytes → Bytes → List Bytes → List Bytes × Bytes
split text delimiter result = Strings.split text delimiter result

abbrev pub rsplit : Bytes → ℕ → Bytes → List Bytes → List Bytes
rsplit text start_pos delimiter result = Strings.rsplit text start_pos delimiter result

abbrev pub is_digits : Bytes → Bool
is_digits text = Strings.is_digits text

abbrev pub new_parser : ℕ → RequestProperties → HttpParser
new_parser buffer_size unset = Parser.new_parser buffer_size unset

abbrev pub parse_request_properties : Bytes → RequestProperties → Option RequestProperties
parse_request_properties request props = Parser.parse_request_properties request props

abbrev pub get_requests : HttpParser → List RequestProperties
get_requests parser = Parser.get_requests parser

abbrev pub url_params_map2json : Fields → Bytes
url_params_map2json params = Json.url_params_map2json params
