-- ===== src/Tests/StringWitnesses.antt =====
-- The theorems on the string routines and the field parsers at concrete texts.
use http.Base.{◌≡◌, [], codes, arith}
use http.Strings.{split}
use http.Strings.Split.{IsSplit, split-IsSplit}
use http.Strings.Rsplit.{last_first}
use http.Message.{emplace}
use http.Parser.{base_properties, parse_request_properties, default_request}
use http.Parser.Line.{line_words, parse_request_properties-words}
use http.Variants.Headers.{header_line_dropped}
use http.Modern
use http.Legacy

split-IsSplit_example :
    IsSplit (codes ", ") (codes "a, b, ") [] (split (codes "a, b, ") (codes ", ") [])
split-IsSplit_example = split-IsSplit (codes "a, b, ") (codes ", ") [] (omega arith)

parse_request_properties-words_example :
    parse_request_properties (codes "GET / HTTP/1.1") default_request
    ≡ base_properties (last_first (line_words (codes "GET / HTTP/1.1"))) default_request
parse_request_properties-words_example =
    parse_request_properties-words (codes "GET / HTTP/1.1") default_request

header_line_dropped_example :
    (Modern.header_line (codes "Referer: see: that") []
      ≡ emplace (codes "Referer") (codes "see: that") [])
    × (Legacy.header_line (codes "Referer: see: that") [] ≡ [])
header_line_dropped_example =
    header_line_dropped (codes "Referer") (codes "see") (codes "that") [] (omega arith)
      (omega arith) (cc)
