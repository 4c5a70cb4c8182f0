-- ===== src/Json/Members.antt =====
-- The members of the JSON text are separated by commas.
use http.Base.{
  ℕ, suc, ◌+◌, ◌-◌, ◌%◌, ◌^◌, ◌≤◌, ◌<◌, ◌≡◌, refl, sym, ◌∙◌, ap, true, false, [], ◌∷◌, ◌++◌,
  append-nil, append_assoc, Bytes, codes, length, ◌==◌, arith,
}
use http.Message.{Fields}
use http.Json.{parameter, parameters, url_params_map2json}

-- A name and a value in quotes.
unfoldable pub member : Bytes → Bytes → Bytes
member name value = codes " \"" ++ (name ++ (codes "\": \"" ++ (value ++ codes "\"")))

-- The members with a comma between each two of them.
unfoldable pub members : Fields → Bytes
unfolding member
members [] = []
members ((name, value) ∷ []) = member name value
members ((name, value) ∷ field ∷ fields) =
    member name value ++ (codes "," ++ members (field ∷ fields))

regroup :
    (a b c d e r : Bytes) → (a ++ (b ++ (c ++ (d ++ e)))) ++ r ≡ a ++ (b ++ (c ++ (d ++ (e ++ r))))
regroup a b c d e r =
    append_assoc a _ r
    ∙ ap (λ t. a ++ t)
        (append_assoc b _ r
          ∙ ap (λ t. b ++ t) (append_assoc c _ r ∙ ap (λ t. c ++ t) (append_assoc d e r)))

parameter-last :
    (i n : ℕ) (name value : Bytes) → suc i ≡ n → parameter i n name value ≡ member name value
unfolding parameter member
parameter-last i n name value h = let last : (i == n - 1) ≡ true = ground arith in rw last refl

parameter-more :
    (i n : ℕ) (name value r : Bytes)
    → suc i < n
    → parameter i n name value ++ r ≡ member name value ++ (codes "," ++ r)
unfolding parameter member
parameter-more i n name value r h =
    let more : (i == n - 1) ≡ false = ground arith in
    rw more (
      regroup (codes " \"") name (codes "\": \"") value (codes "\",") r
      ∙ sym (regroup (codes " \"") name (codes "\": \"") value (codes "\"") (codes "," ++ r)))

parameters-members :
    (i n : ℕ) (fields : Fields)
    → n ≡ i + length fields
    → n ≤ 2 ^ 16
    → parameters i n fields ≡ members fields
unfolding parameters members
parameters-members i n [] size small = refl
parameters-members i n ((name, value) ∷ []) size small =
    append-nil (parameter i n name value) ∙ parameter-last i n name value (omega (arith, size))
parameters-members i n ((name, value) ∷ field ∷ fields) size small =
    let next : (i + 1) % 2 ^ 16 ≡ i + 1 = omega (arith, size) in
    ap (λ k. parameter i n name value ++ parameters k n (field ∷ fields)) next
    ∙ ap (λ r. parameter i n name value ++ r)
        (parameters-members (i + 1) n (field ∷ fields) (omega (arith, size)) small)
    ∙ parameter-more i n name value (members (field ∷ fields)) (omega (arith, size))

-- For at most 65536 parameters, the pieces of the text with the counter and the size are those that
-- stand between commas.
pub url_params_map2json-members :
    (fields : Fields)
    → length fields ≤ 2 ^ 16
    → url_params_map2json fields ≡ codes "{ \"payload\": {" ++ (members fields ++ codes " }}")
unfolding url_params_map2json
url_params_map2json-members fields small =
    ap (λ t. codes "{ \"payload\": {" ++ (t ++ codes " }}"))
      (parameters-members 0 (length fields) fields (omega arith) small)
