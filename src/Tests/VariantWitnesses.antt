-- ===== src/Tests/VariantWitnesses.antt =====
-- Witnesses of the theorems that compare the two builds on whole texts.
use http.Base.{◌≡◌, ◌∷◌, [], refl, codes, arith, find, Bytes}
use http.Parser.{Parser, returned, append_buffer, new_parser}
use http.Modern.{modern}
use http.Legacy
use http.Variants.Texts.{IsPlain, other, field}
use http.Variants.Requests.{IsText, append_buffer_same}
use http.Tests.ParserRuns.{empty}
use http.Tests.ParserWitnesses.{first_get, second_get, gets_text, both}

abbrev request_line : Bytes
request_line = codes "GET /a?x=1 HTTP/1.1"

request_line-IsPlain : IsPlain request_line
request_line-IsPlain = record {
  header = other request_line (omega arith);
  no_return = omega arith;
  no_newline = omega arith;
}

second_get-IsPlain : IsPlain second_get
second_get-IsPlain = record {
  header = other second_get (omega arith);
  no_return = omega arith;
  no_newline = omega arith;
}

host-IsPlain : IsPlain (codes "Host: h")
host-IsPlain = record {
  header = field (codes "Host") (codes "h") (omega arith) (omega arith) (cc) (cc);
  no_return = omega arith;
  no_newline = omega arith;
}

first_get-IsText : IsText first_get
first_get-IsText = record {
  lines = request_line ∷ [];
  last = codes "Host: h";
  text = refl;
  plain = (request_line-IsPlain, tt);
  last_plain = host-IsPlain;
}

second_get-IsText : IsText second_get
second_get-IsText = record {
  lines = [];
  last = second_get;
  text = refl;
  plain = tt;
  last_plain = second_get-IsPlain;
}

append_buffer_same_example :
    (m : Parser) × (l : Parser) × (append_buffer modern empty gets_text ≡ returned tt m)
    × (Legacy.append_buffer empty gets_text ≡ returned tt l)
    × (m.requests ≡ l.requests)
    × (m.http_request_buffer ≡ l.http_request_buffer)
unfolding new_parser find
append_buffer_same_example =
    append_buffer_same empty gets_text first_get (second_get ∷ []) (codes "GE") both
      (first_get-IsText, (second_get-IsText, tt)) refl (omega arith) refl (refl, (refl, tt)) refl
