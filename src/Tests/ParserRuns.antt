-- ===== src/Tests/ParserRuns.antt =====
-- The request parser on concrete buffers.
use http.Base.{◌≡◌, refl, List, [], ◌∷◌, Bytes, codes}
use http.Message.{Request}
use http.Parser.{Parser, Outcome, returned, thrown, new_parser, append_buffer, default_request}
use http.Modern.{modern}
use http.Legacy.{legacy}

abbrev pub empty : Parser
empty = new_parser 4096 default_request

abbrev requests_of {ℓ} : {A : Type ℓ} → Outcome A → List Request
requests_of (returned a p) = p.requests
requests_of (thrown e p) = []

abbrev rest_of {ℓ} : {A : Type ℓ} → Outcome A → Bytes
rest_of (returned a p) = p.http_request_buffer
rest_of (thrown e p) = codes "!"

abbrev get_text : Bytes
get_text = codes "GET /a?x=1&y=&=z HTTP/1.1\r\nHost: h: i\r\nA: b\r\n\r\nGET"

get_request :
    requests_of (append_buffer modern empty get_text)
    ≡ record {
      http_version = 1;
      http_method = 1;
      request_headers = (codes "Host", codes "h: i") ∷ (codes "A", codes "b") ∷ [];
      url = codes "/a?x=1&y=&=z";
      payload = [];
      url_params = (codes "x", codes "1") ∷ (codes "y", []) ∷ [];
    }
      ∷ []
unfolding append_buffer new_parser modern
get_request = refl

get_rest : rest_of (append_buffer modern empty get_text) ≡ codes "GET"
unfolding append_buffer new_parser modern
get_rest = refl

legacy_request :
    requests_of (append_buffer legacy empty get_text)
    ≡ record {
      http_version = 1;
      http_method = 1;
      request_headers = (codes "A", codes "b") ∷ [];
      url = codes "/a?x=1&y=&=z";
      payload = [];
      url_params = (codes "x", codes "1") ∷ (codes "y", []) ∷ [];
    }
      ∷ []
unfolding append_buffer new_parser legacy
legacy_request = refl
