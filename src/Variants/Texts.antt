-- ===== src/Variants/Texts.antt =====
-- Whole request texts of lines that both builds read alike.
use http.Base.{
  ℕ, ◌≡◌, ◌≢◌, refl, ◌∙◌, ap, sym, Bytes, List, [], ◌∷◌, ◌++◌, ◌==◌, ◌-◌, find, starts, inl, inr,
  ltb, length, All, take, append_assoc, append-nil, Bool-cases, arith, false, none,
}
use http.Strings.{rsplit, rsplit_loop}
use http.Strings.Rsplit.{Lacks}
use http.Strings.Split.{joined, IsToken, split-joined}
use http.Strings.Cut.{starts-Lacks, find-Lacks, rfind-none}
use http.Variants.Headers.{field_separator, header_line_same}
use http.Message.{Fields}
use http.Modern.{get_lines, pop_cr}
use http.Modern
use http.Legacy

abbrev pub line_end : Bytes
line_end = b'\r' ∷ b'\n' ∷ []

-- A field whose name and value are not empty and hold no colon, or a text without a colon.
pub data IsHeaderLine : Bytes → Type 0 where
  field :
      (k v : Bytes)
      → Lacks b':' k
      → Lacks b':' v
      → k ≢ []
      → v ≢ []
      → IsHeaderLine (k ++ (field_separator ++ v))
  other : (l : Bytes) → Lacks b':' l → IsHeaderLine l

-- A header line without a line end in it.
pub record IsPlain (l : Bytes) : Type 0 where
  pub header : IsHeaderLine l
  pub no_return : Lacks b'\r' l
  pub no_newline : Lacks b'\n' l

find-none-Lacks : (c : ℕ) (d l : Bytes) → Lacks c l → find l (c ∷ d) ≡ none
unfolding find starts
find-none-Lacks c d [] h = refl
find-none-Lacks c d (b ∷ l) (ne, h) =
    let off : (c == b) ≡ false = ground (arith, ne) in rw (off, find-none-Lacks c d l h) refl

other_modern : (l : Bytes) (result : Fields) → Lacks b':' l → Modern.header_line l result ≡ result
other_modern l result h =
    unfold Modern.header_line in rw (find-none-Lacks b':' (b' ' ∷ []) l h, Modern.header_line) refl

other_legacy : (l : Bytes) (result : Fields) → Lacks b':' l → Legacy.header_line l result ≡ result
other_legacy l result h = elim (Bool-cases (ltb (length l) 2)) [
  | inl t ↦ unfold Legacy.header_line in unfold rsplit in rw t (one_part (take (length l) l))
  | inr t ↦
      let nothing =
        rfind-none l field_separator (length l - 2) (λ j k. starts-Lacks b':' (b' ' ∷ []) l j h) in
      unfold Legacy.header_line in
      unfold rsplit in rw t (unfold rsplit_loop in rw (nothing, rsplit_loop) (one_part []))
]
  where
    one_part : (w : Bytes) → Legacy.header_pair (w ∷ []) result ≡ result
    one_part w = unfold Legacy.header_pair in refl

get_lines-run : (cur l s : Bytes) → Lacks b'\n' l → get_lines cur (l ++ s) ≡ get_lines (cur ++ l) s
unfolding get_lines
get_lines-run cur [] s h = ap (λ t. get_lines t s) (sym (append-nil cur))
get_lines-run cur (b ∷ l) s (ne, h) =
    let off : (b == b'\n') ≡ false = ground (arith, ne) in
    rw off
      (get_lines-run (cur ++ b ∷ []) l s h ∙ ap (λ t. get_lines t s) (append_assoc cur (b ∷ []) l))

pop_cr-end : (l : Bytes) → pop_cr (l ++ b'\r' ∷ []) ≡ l
unfolding pop_cr
pop_cr-end [] = refl
pop_cr-end (b ∷ []) = refl
pop_cr-end (b ∷ c ∷ l) = ap (λ r. b ∷ r) (pop_cr-end (c ∷ l))

pop_cr-Lacks : (l : Bytes) → Lacks b'\r' l → pop_cr l ≡ l
unfolding pop_cr
pop_cr-Lacks [] h = refl
pop_cr-Lacks (b ∷ []) (ne, h) = let off : (b == b'\r') ≡ false = ground (arith, ne) in rw off refl
pop_cr-Lacks (b ∷ c ∷ l) (ne, h) = ap (λ r. b ∷ r) (pop_cr-Lacks (c ∷ l) h)

header_line-IsHeaderLine :
    (l : Bytes) (result : Fields)
    → IsHeaderLine l
    → Modern.header_line l result ≡ Legacy.header_line l result
header_line-IsHeaderLine _ result (field k v lk lv ke ve) =
    let (a, b) = header_line_same k v result lk lv ke ve in a ∙ sym b
header_line-IsHeaderLine l result (other _ h) =
    other_modern l result h ∙ sym (other_legacy l result h)

get_lines-rest : (rest : Bytes) → Lacks b'\n' rest → get_lines [] rest ≡ get_lines rest []
get_lines-rest rest h = ap (get_lines []) (sym (append-nil rest)) ∙ get_lines-run [] rest [] h

get_lines-line :
    (l s : Bytes)
    → Lacks b'\n' l
    → get_lines [] (l ++ (line_end ++ s)) ≡ (l ++ b'\r' ∷ []) ∷ get_lines [] s
get_lines-line l s h = get_lines-run [] l (line_end ++ s) h ∙ unfold get_lines in refl

header_lines-same :
    (ls : List Bytes) (rest : Bytes) (result : Fields)
    → All IsPlain ls
    → IsPlain rest
    → Modern.header_lines (get_lines [] (joined line_end ls rest)) result
      ≡ Legacy.header_lines (ls ++ rest ∷ []) result
unfolding Modern.header_lines Legacy.header_lines
header_lines-same [] rest result oks ok = rw (get_lines-rest rest ok.no_newline) (last rest ok)
  where
    last :
        (rest : Bytes)
        → IsPlain rest
        → Modern.header_lines (get_lines rest []) result ≡ Legacy.header_line rest result
    last [] ok = unfold get_lines in refl
    last (b ∷ s) ok =
        unfold get_lines in
        ap (λ l. Modern.header_line l result) (pop_cr-Lacks (b ∷ s) ok.no_return)
        ∙ header_line-IsHeaderLine (b ∷ s) result ok.header
header_lines-same (l ∷ ls) rest result (ok, oks) last =
    rw (get_lines-line l (joined line_end ls rest) ok.no_newline) (
      rw (pop_cr-end l, Modern.header_lines)
        (rw (header_line-IsHeaderLine l result ok.header)
          (header_lines-same ls rest (Legacy.header_line l result) oks last)))

IsPlain-IsToken : (ls : List Bytes) → All IsPlain ls → All (IsToken line_end) ls
IsPlain-IsToken [] oks = tt
IsPlain-IsToken (l ∷ ls) (ok, oks) = (
  find-Lacks b'\r' (b'\n' ∷ []) l line_end ok.no_return (unfold starts in refl),
  IsPlain-IsToken ls oks,
)

-- A text of lines, each a field with neither line end nor colon in its name and value or a line
-- without a colon, as the request line may be: both builds read the same header fields from it.
pub parse_request_headers_same :
    (ls : List Bytes) (rest : Bytes) (result : Fields)
    → All IsPlain ls
    → IsPlain rest
    → Modern.parse_request_headers (joined line_end ls rest) result
      ≡ Legacy.parse_request_headers (joined line_end ls rest) result
unfolding Modern.parse_request_headers Legacy.parse_request_headers
parse_request_headers_same ls rest result oks ok =
    let cut =
      split-joined line_end ls rest [] (omega arith) (IsPlain-IsToken ls oks)
        (find-none-Lacks b'\r' (b'\n' ∷ []) rest ok.no_return) in
    header_lines-same ls rest result oks ok ∙ rw cut refl
