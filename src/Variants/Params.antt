-- ===== src/Variants/Params.antt =====
-- URL parameters: both builds read the same.
use http.Base.{
  ◌+◌, ◌≡◌, refl, Bytes, List, [], ◌∷◌, codes, find, Option-cases, inl, inr, ltb, length, drop,
  Bool-cases, arith,
}
use http.Strings.{split}
use http.Strings.Split.{split_view-split, with_rest}
use http.Message.{Fields}
use http.Modern
use http.Legacy

parameters_same :
    (pairs : List Bytes) (result : Fields)
    → Modern.parameters pairs result ≡ Legacy.parameters pairs result
unfolding Modern.parameters Legacy.parameters
parameters_same [] result = refl
parameters_same (pair ∷ pairs) result = parameters_same pairs _

-- For every URL and every map to add to, the build for C++23 and the build for C++11 put the same
-- parameters into the map.
pub parse_get_parameter_same :
    (url : Bytes) (result : Fields)
    → Modern.parse_get_parameter url result ≡ Legacy.parse_get_parameter url result
unfolding Modern.parse_get_parameter Legacy.parse_get_parameter
parse_get_parameter_same url result = elim (Option-cases (find url (codes "?"))) [
  | inl n ↦ rw (n, Modern.parse_get_parameter, Legacy.parse_get_parameter) refl
  | inr (p, e) ↦
      let cut = split_view-split (drop (p + 1) url) (codes "&") [] (omega arith) in
      rw (e, Modern.parse_get_parameter, Legacy.parse_get_parameter)
        (elim (Bool-cases (ltb p (length url))) [
          | inl inside ↦ rw inside (
              rw cut (parameters_same (with_rest (split (drop (p + 1) url) (codes "&") [])) result))
          | inr past ↦ rw past refl
        ])
]
