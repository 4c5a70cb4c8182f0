-- ===== src/Variants/Requests.antt =====
-- What the two builds deliver for the same bytes.
use http.Base.{
  ◌+◌, ◌≤◌, ◌≡◌, refl, ◌∙◌, ap, ap₂, sym, Bytes, List, [], ◌∷◌, ◌++◌, find, length, All, false,
  none,
}
use http.Strings.Split.{joined, IsToken}
use http.Message.{http_1_1_end_marker}
use http.Parser.{Parser, returned}
use http.Parser
use http.Parser.Line.{IsGet}
use http.Parser.Pipeline.{got, got_all, append_buffer-gets}
use http.Modern.{modern}
use http.Legacy.{legacy}
use http.Modern
use http.Legacy
use http.Variants.Params.{parse_get_parameter_same}
use http.Variants.Texts.{line_end, IsPlain, parse_request_headers_same}

-- A text of plain lines.
pub record IsText (t : Bytes) : Type 0 where
  pub lines : List Bytes
  pub last : Bytes
  pub text : t ≡ joined line_end lines last
  pub plain : All IsPlain lines
  pub last_plain : IsPlain last

headers_same :
    (t : Bytes) → IsText t → Modern.parse_request_headers t [] ≡ Legacy.parse_request_headers t []
headers_same t x =
    ap (λ t. Modern.parse_request_headers t []) x.text
    ∙ parse_request_headers_same x.lines x.last [] x.plain x.last_plain
    ∙ ap (λ t. Legacy.parse_request_headers t []) (sym x.text)

got-same : (t url : Bytes) → IsText t → got modern t url ≡ got legacy t url
unfolding modern legacy
got-same t url x =
    ap₂
      (λ h u. record {
        http_version = 1;
        http_method = 1;
        request_headers = h;
        url = url;
        payload = [];
        url_params = u;
      })
      (headers_same t x) (parse_get_parameter_same url [])

got_all-same :
    (ts : List Bytes) (gs : All IsGet ts)
    → All IsText ts
    → got_all modern ts gs ≡ got_all legacy ts gs
unfolding got_all
got_all-same [] gs xs = refl
got_all-same (t ∷ ts) (g, gs) (x, xs) =
    ap₂ (λ r rs. r ∷ rs) (got-same t g.first.url x) (got_all-same ts gs xs)

-- The end of a text of GET requests whose lines are plain, each with its end marker, and a rest
-- without one, given to a parser that does not wait for a payload and has room for it: both builds
-- return, with the same requests and the same bytes in the buffer.
pub append_buffer_same :
    (p : Parser) (received : Bytes) (t : Bytes) (ts : List Bytes) (rest : Bytes)
    (gs : All IsGet (t ∷ ts))
    → All IsText (t ∷ ts)
    → p.post_wait_content_length ≡ false
    → length p.http_request_buffer + length received ≤ p.http_request_buffer_max
    → p.http_request_buffer ++ received ≡ joined http_1_1_end_marker (t ∷ ts) rest
    → All (IsToken http_1_1_end_marker) (t ∷ ts)
    → find rest http_1_1_end_marker ≡ none
    → (m : Parser) × (l : Parser) × (Parser.append_buffer modern p received ≡ returned tt m)
      × (Legacy.append_buffer p received ≡ returned tt l)
      × (m.requests ≡ l.requests)
      × (m.http_request_buffer ≡ l.http_request_buffer)
unfolding Legacy.append_buffer
append_buffer_same p received t ts rest gs xs idle room spelled tokens clean =
    let (m, run_m, req_m, buf_m, _, _) =
      append_buffer-gets modern p received t ts rest gs idle room spelled tokens clean in
    let (l, run_l, req_l, buf_l, _, _) =
      append_buffer-gets legacy p received t ts rest gs idle room spelled tokens clean in
    (
      m,
      l,
      run_m,
      run_l,
      req_m ∙ ap (λ rs. p.requests ++ rs) (got_all-same (t ∷ ts) gs xs) ∙ sym req_l,
      buf_m ∙ sym buf_l,
    )
