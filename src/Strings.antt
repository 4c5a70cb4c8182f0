-- ===== src/Strings.antt =====
-- class StringHelper of lib/http/httpparser.hpp: the splitting routines of the request parser.
-- The loops run on fuel: `split` has one more than the length of the text and `rsplit` one more than
-- its start position, and Strings/Split and Strings/Rsplit show what they return.
pub mod Search
pub mod Split
pub mod Enough
pub mod Rsplit
pub mod Cut
use http.Base.{
  ℕ, zero, suc, ◌+◌, ◌-◌, Bool, ◌&&◌, Option, none, some, List, [], ◌∷◌, ◌++◌, Bytes, find, rfind,
  substr, length, take, drop, null, all_of, ltb, leb, if◌then◌else◌,
}

-- The loop of `split(string_view, string_view, vector<string_view>&)`.
unfoldable pub split_view_loop : ℕ → Bytes → Bytes → List Bytes → List Bytes
split_view_loop zero sv d out = out
split_view_loop (suc f) sv d out = elim (find sv d) [
  | none ↦ if null sv then out else out ++ sv ∷ []
  | some pos ↦ split_view_loop f (drop (pos + length d) sv) d (out ++ take pos sv ∷ [])
]

-- Tokens are appended to `out`, and the text behind the last delimiter too, if there is any.
unfoldable pub split_view : Bytes → Bytes → List Bytes → List Bytes
unfolding split_view_loop find
split_view sv d out = split_view_loop (suc (length sv)) sv d out

-- The loop of `split(string&, string_view, vector<string>&)`: the tokens and what is left of the
-- string, which the tokens are erased from.
unfoldable pub split_loop : ℕ → Bytes → Bytes → List Bytes → List Bytes × Bytes
split_loop zero s d out = (out, s)
split_loop (suc f) s d out = elim (find s d) [
  | none ↦ (out, s)
  | some pos ↦ split_loop f (drop (pos + length d) s) d (out ++ take pos s ∷ [])
]

unfoldable pub split : Bytes → Bytes → List Bytes → List Bytes × Bytes
unfolding split_loop find
split s d out = split_loop (suc (length s)) s d out

-- The loop of `rsplit`. The variables are the text, `StartPos`, the delimiter, `FindPosLast` and
-- the result; what follows the loop is the last push, on each way out of it.
unfoldable pub rsplit_loop : ℕ → Bytes → ℕ → Bytes → ℕ → List Bytes → List Bytes
rsplit_loop zero s start d last out = out ++ take last s ∷ []
rsplit_loop (suc f) s start d last out = elim (rfind s d start) [
  | none ↦ out ++ take last s ∷ []
  | some pos ↦
      let out' = out ++ substr (pos + length d) (start - pos) s ∷ [] in
      let rest = rsplit_loop f s (pos - length d) d pos out' in
      if ltb pos (length d) then out' ++ take pos s ∷ [] else rest
]

unfoldable pub rsplit : Bytes → ℕ → Bytes → List Bytes → List Bytes
unfolding rsplit_loop rfind
rsplit s start d out =
    if ltb start (length d)
    then out ++ take start s ∷ []
    else rsplit_loop (suc start) s (start - length d) d 0 out

-- `isdigit` in the C locale; a byte outside ASCII is no digit.
abbrev pub is_digit : ℕ → Bool
is_digit c = leb b'0' c && leb c b'9'

unfoldable pub is_digits : Bytes → Bool
is_digits s = all_of is_digit s
