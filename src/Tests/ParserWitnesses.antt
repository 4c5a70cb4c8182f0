-- ===== src/Tests/ParserWitnesses.antt =====
-- The theorems on the request parser at concrete buffers.
use http.Base.{◌≡◌, ◌++◌, refl, [], ◌∷◌, Bytes, codes, true, false, find, arith, All}
use http.Strings.{is_digits}
use http.Strings.Split.{joined}
use http.Strings.Rsplit.{words}
use http.Message.{lookup, stoi, http_1_1_end_marker, out_of_range}
use http.Parser.{
  Parser, returned, thrown, append_buffer, new_parser, default_request, start_pos,
  parse_request_properties,
}
use http.Parser.Progress.{Ensures}
use http.Parser.Append.{Kept, Bounded, append_buffer-Kept, append_buffer-Bounded}
use http.Parser.Line.{IsGet}
use http.Parser.Pipeline.{got_all, append_buffer-gets}
use http.Parser.Chunks.{feed, feed-append_buffer}
use http.Parser.Post.{IsPostOf, posted, append_buffer-post, feed-post}
use http.Parser.Faults.{append_buffer-post_last, feed-marker_in_payload}
use http.Modern.{modern}
use http.Tests.ParserRuns.{empty}

abbrev pub first_get : Bytes
first_get = codes "GET /a?x=1 HTTP/1.1\r\nHost: h"

abbrev pub second_get : Bytes
second_get = codes "GET /b HTTP/1.1"

abbrev pub post_text : Bytes
post_text = codes "POST /p HTTP/1.1\r\nContent-Length: 65541"

pub first_get-IsGet : IsGet first_get
unfolding start_pos words find
first_get-IsGet = record {
  first = record {
    method = codes "GET";
    url = codes "/a?x=1";
    version = codes "HTTP/1.1";
    line = refl;
    version_1_1 = refl;
  };
  get = refl;
}

pub second_get-IsGet : IsGet second_get
unfolding start_pos words find
second_get-IsGet = record {
  first = record {
    method = codes "GET";
    url = codes "/b";
    version = codes "HTTP/1.1";
    line = refl;
    version_1_1 = refl;
  };
  get = refl;
}

pub post_text-IsPostOf : IsPostOf modern post_text 65541
unfolding start_pos words find modern lookup stoi is_digits
post_text-IsPostOf = record {
  request = record {
    first = record {
      method = codes "POST";
      url = codes "/p";
      version = codes "HTTP/1.1";
      line = refl;
      version_1_1 = refl;
    };
    not_get = refl;
    post = refl;
  };
  value = codes "65541";
  announced = refl;
  digits = refl;
  number_is = refl;
}

abbrev pub gets_text : Bytes
gets_text = joined http_1_1_end_marker (first_get ∷ second_get ∷ []) (codes "GE")

abbrev pub both : All IsGet (first_get ∷ second_get ∷ [])
both = (first_get-IsGet, (second_get-IsGet, tt))

append_buffer-gets_example :
    (q : Parser) × (append_buffer modern empty gets_text ≡ returned tt q)
    × (q.requests ≡ empty.requests ++ got_all modern (first_get ∷ second_get ∷ []) both)
    × (q.http_request_buffer ≡ codes "GE")
    × (q.post_wait_content_length ≡ false)
    × (q.request_parse_error ≡ empty.request_parse_error)
unfolding new_parser find
append_buffer-gets_example =
    append_buffer-gets modern empty gets_text first_get (second_get ∷ []) (codes "GE") both refl
      (omega arith) refl (refl, (refl, tt)) refl

append_buffer-Kept_example : Ensures (Kept empty) (append_buffer modern empty gets_text)
unfolding new_parser
append_buffer-Kept_example = append_buffer-Kept modern empty gets_text refl (omega arith)

append_buffer-Bounded_example : Ensures (Bounded empty) (append_buffer modern empty gets_text)
unfolding new_parser
append_buffer-Bounded_example = append_buffer-Bounded modern empty gets_text (omega arith)

feed-append_buffer_example :
    feed modern empty (codes "GET /a" ∷ codes " HTTP/1.1\r\n" ∷ codes "\r\n" ∷ [])
    ≡ append_buffer modern empty (codes "GET /a HTTP/1.1\r\n\r\n")
unfolding new_parser find
feed-append_buffer_example =
    feed-append_buffer modern empty (codes "GET /a" ∷ codes " HTTP/1.1\r\n" ∷ []) (codes "\r\n")
      refl (omega arith) refl

-- A length of 65541 counts as 5.
append_buffer-post_example :
    (q : Parser) × (append_buffer modern empty (post_text ++ codes "\r\n\r\nhello, world")
      ≡ returned tt q)
    × (q.requests
        ≡ empty.requests
          ++ posted modern post_text (post_text-IsPostOf.request.first.url) (codes "hello") ∷ [])
    × (q.http_request_buffer ≡ codes ", world")
    × (q.post_wait_content_length ≡ false)
    × (q.request_parse_error ≡ empty.request_parse_error)
unfolding new_parser find
append_buffer-post_example =
    append_buffer-post modern empty (post_text ++ codes "\r\n\r\nhello, world") post_text
      (codes "hello, world") 65541 post_text-IsPostOf refl (omega arith) refl refl refl
      (omega arith) (omega arith)

feed-post_example :
    (q : Parser) × (feed modern empty ((post_text ++ codes "\r\n\r\nhel") ∷ codes "lo\r\n\r\n" ∷ [])
      ≡ returned tt q)
    × (q.requests
        ≡ empty.requests
          ++ posted modern post_text (post_text-IsPostOf.request.first.url) (codes "hello") ∷ [])
    × (q.http_request_buffer ≡ codes "\r\n\r\n")
    × (q.post_wait_content_length ≡ false)
unfolding new_parser find
feed-post_example =
    feed-post modern empty (post_text ++ codes "\r\n\r\nhel") post_text (codes "hel")
      (codes "lo\r\n\r\n") 65541 post_text-IsPostOf refl (omega arith) refl refl refl (omega arith)
      (omega arith) (omega arith) (omega arith)

abbrev pub get_post : Bytes
get_post = joined http_1_1_end_marker (second_get ∷ post_text ∷ []) (codes "hello")

append_buffer-post_last_example :
    (q : Parser) × (append_buffer modern empty get_post ≡ thrown out_of_range q)
    × (q.requests ≡ empty.requests ++ got_all modern (second_get ∷ []) (second_get-IsGet, tt))
unfolding new_parser find
append_buffer-post_last_example =
    append_buffer-post_last modern empty get_post second_get [] post_text (codes "hello") 65541
      (second_get-IsGet, tt) post_text-IsPostOf refl (omega arith) refl (refl, (refl, tt)) refl
      (omega arith)

-- A POST request that waits for twelve bytes.
abbrev waiting_post : Parser
waiting_post = record empty {
  post_wait_content_length = true;
  post_content_length = 12;
  request_properties = posted modern post_text (codes "/p") [];
}

feed-marker_in_payload_example :
    (q : Parser) × (feed modern waiting_post (codes "ab\r\n\r\nc" ∷ codes "defghijklmn" ∷ [])
      ≡ returned tt q)
    × (q.requests
        ≡ waiting_post.requests ++ record default_request { payload = codes "cdefghijklmn" } ∷ [])
    × (q.request_parse_error ≡ 400)
unfolding new_parser find parse_request_properties
feed-marker_in_payload_example =
    feed-marker_in_payload modern waiting_post (codes "ab\r\n\r\nc") (codes "ab") (codes "c")
      (codes "defghijklmn") refl (omega arith) refl (omega arith) refl refl refl refl (omega arith)
      (omega arith)
