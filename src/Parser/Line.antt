-- ===== src/Parser/Line.antt =====
-- The request line: `_parseRequestProperties` against the words of the first line.
use http.Base.{
  ◌≤◌, ◌≡◌, refl, ◌∙◌, ap, true, false, some, List, [], ◌∷◌, Bytes, codes, find, length,
  length-take, take, drop, take-append-drop, arith, Option-cases, inl, inr, is_some, subst,
}
use http.Strings.{rsplit}
use http.Strings.Search.{find-bound}
use http.Strings.Rsplit.{words, last_first, rsplit-words}
use http.Message.{Request}
use http.Parser.{start_pos, base_properties, parse_request_properties, default_request}

-- The request up to its first line end.
abbrev pub first_line : Bytes → Bytes
first_line t = take (start_pos t) t

start_pos-le : (t : Bytes) → start_pos t ≤ length t
unfolding start_pos
start_pos-le t = elim (Option-cases (find t (codes "\r\n"))) [
  | inl n ↦ rw (n, start_pos) (omega arith)
  | inr (p, e) ↦ rw (e, start_pos) (omega (arith, find-bound t (codes "\r\n") p e))
]

-- The words of the first line, the last one first.
abbrev pub line_words : Bytes → Bytes × List Bytes
line_words t = words b' ' [] [] (first_line t)

-- The request line is read word by word: what the parser gets is decided by the words of the
-- first line alone.
pub parse_request_properties-words :
    (t : Bytes) (props : Request)
    → parse_request_properties t props ≡ base_properties (last_first (line_words t)) props
unfolding parse_request_properties
parse_request_properties-words t props =
    let p = start_pos t in
    let size : length (first_line t) ≡ p = omega (arith, length-take p t, start_pos-le t) in
    ap (λ ws. base_properties ws props)
      (subst (λ n. rsplit t n (codes " ") [] ≡ last_first (line_words t)) size
        (subst (λ s. rsplit s (length (first_line t)) (codes " ") [] ≡ last_first (line_words t))
          (take-append-drop p t) (rsplit-words b' ' (first_line t) (drop p t))))

-- A first line of the three words method, URL and version.
pub record IsLine (t : Bytes) : Type 0 where
  pub method : Bytes
  pub url : Bytes
  pub version : Bytes
  pub line : line_words t ≡ (version, url ∷ method ∷ [])
  pub version_1_1 : is_some (find version (codes "HTTP/1.1")) ≡ true

pub record IsGet (t : Bytes) : Type 0 where
  pub first : IsLine t
  pub get : is_some (find first.method (codes "GET")) ≡ true

pub record IsPost (t : Bytes) : Type 0 where
  pub first : IsLine t
  pub not_get : is_some (find first.method (codes "GET")) ≡ false
  pub post : is_some (find first.method (codes "POST")) ≡ true

pub parse_request_properties-get :
    (t : Bytes) (g : IsGet t)
    → parse_request_properties t default_request
      ≡ some (record default_request { http_version = 1; http_method = 1; url = g.first.url })
parse_request_properties-get t g =
    parse_request_properties-words t default_request
    ∙ unfold base_properties in rw g.first.line (rw (g.first.version_1_1, g.get) refl)

pub parse_request_properties-post :
    (t : Bytes) (g : IsPost t)
    → parse_request_properties t default_request
      ≡ some (record default_request { http_version = 1; http_method = 2; url = g.first.url })
parse_request_properties-post t g =
    parse_request_properties-words t default_request
    ∙ unfold base_properties in rw g.first.line (rw (g.first.version_1_1, g.not_get, g.post) refl)
