-- ===== src/Json/RoundTrip.antt =====
-- The parameters are read back from the JSON text.
use http.Base.{
  equal, ◌^◌, ℕ, zero, suc, ◌≤◌, ◌≡◌, refl, ◌∙◌, ap, subst, Bool, true, false, ◌||◌, some, [], ◌∷◌,
  ◌++◌, append_assoc, Bytes, codes, length, length-append, ltb, ◌==◌, if◌then◌else◌, arith,
}
use http.Message.{Fields}
use http.Json.{url_params_map2json}
use http.Json.Members.{member, members, url_params_map2json-members}
use http.Json.Reading.{is_plain, skip, expect, read_string, read_member, read_members, read_payload}

-- Texts without a quote, a backslash or a control character.
abbrev pub IsPlainText : Bytes → Type 0
IsPlainText [] = Unit {0}
IsPlainText (b ∷ text) = (is_plain b ≡ true) × IsPlainText text

abbrev pub ArePlain : Fields → Type 0
ArePlain [] = Unit {0}
ArePlain ((name, value) ∷ fields) = IsPlainText name × IsPlainText value × ArePlain fields

plain-tests : (b : ℕ) → is_plain b ≡ true → ((b == 34) ≡ false) × (((b == 92) || ltb b 32) ≡ false)
unfolding is_plain
plain-tests b h = by_tests (b == 34) ((b == 92) || ltb b 32) h
  where
    by_tests : (c d : Bool) → (if c || d then false else true) ≡ true → (c ≡ false) × (d ≡ false)
    by_tests true d h = absurd cc
    by_tests false true h = absurd cc
    by_tests false false h = (refl, refl)

read_string-plain :
    (text r : Bytes) → IsPlainText text → read_string (text ++ 34 ∷ r) ≡ some (text, r)
unfolding read_string
read_string-plain [] r plain = refl
read_string-plain (b ∷ text) r (here, plain) =
    let (other, other') = plain-tests b here in
    rw other (rw other' (rw (read_string-plain text r plain) refl))

-- The text of a member in front of another text.
abbrev spelled : Bytes → Bytes → Bytes → Bytes
spelled name value r = 32 ∷ 34 ∷ (name ++ (34 ∷ 58 ∷ 32 ∷ 34 ∷ (value ++ (34 ∷ r))))

member-spelled : (name value r : Bytes) → member name value ++ r ≡ spelled name value r
unfolding member
member-spelled name value r =
    ap (λ t. 32 ∷ 34 ∷ t)
      (append_assoc name _ r
        ∙ ap (λ t. name ++ (34 ∷ 58 ∷ 32 ∷ 34 ∷ t)) (append_assoc value (34 ∷ []) r))

read_member-spelled :
    (name value r : Bytes)
    → IsPlainText name
    → IsPlainText value
    → read_member (spelled name value r) ≡ some (name, value, r)
unfolding read_member expect skip
read_member-spelled name value r plain plain' =
    rw (read_string-plain name (58 ∷ 32 ∷ 34 ∷ (value ++ (34 ∷ r))) plain, read_member)
      (rw (read_string-plain value r plain', read_member) refl)

spelled-tail :
    (name value : Bytes) (field : Bytes × Bytes) (fields : Fields) (r : Bytes)
    → members ((name, value) ∷ field ∷ fields) ++ r
      ≡ spelled name value (44 ∷ (members (field ∷ fields) ++ r))
unfolding members
spelled-tail name value field fields r =
    append_assoc (member name value) _ r
    ∙ member-spelled name value (44 ∷ (members (field ∷ fields) ++ r))

members-read :
    (f : ℕ) (fields : Fields) (name value r : Bytes)
    → suc (length fields) ≤ f
    → ArePlain ((name, value) ∷ fields)
    → read_members f (members ((name, value) ∷ fields) ++ (32 ∷ 125 ∷ r))
      ≡ some ((name, value) ∷ fields, r)
unfolding read_members members expect skip
members-read zero fields name value r enough plain = absurd (omega arith)
members-read (suc f) [] name value r enough (plain, plain', rest) =
    ap (read_members (suc f)) (member-spelled name value (32 ∷ 125 ∷ r))
    ∙ rw (read_member-spelled name value (32 ∷ 125 ∷ r) plain plain', read_members) refl
members-read (suc f) ((name', value') ∷ fields) name value r enough (plain, plain', rest) =
    let tail = members ((name', value') ∷ fields) ++ (32 ∷ 125 ∷ r) in
    ap (read_members (suc f)) (spelled-tail name value (name', value') fields (32 ∷ 125 ∷ r))
    ∙ rw (read_member-spelled name value (44 ∷ tail) plain plain', read_members)
        (rw (members-read f fields name' value' r (omega arith) rest) refl)

spelled-length : (name value r : Bytes) → suc (length r) ≤ length (spelled name value r)
spelled-length name value r =
    let outer = length-append name (34 ∷ 58 ∷ 32 ∷ 34 ∷ (value ++ (34 ∷ r))) in
    let inner = length-append value (34 ∷ r) in omega arith

members-length : (fields : Fields) (r : Bytes) → length fields ≤ length (members fields ++ r)
unfolding members
members-length [] r = omega arith
members-length ((name, value) ∷ []) r =
    let more = spelled-length name value r in
    let same = ap length (member-spelled name value r) in omega arith
members-length ((name, value) ∷ field ∷ fields) r =
    let less = members-length (field ∷ fields) r in
    let more = spelled-length name value (44 ∷ (members (field ∷ fields) ++ r)) in
    let same = ap length (spelled-tail name value field fields r) in omega arith

members-begin :
    (name value : Bytes) (fields : Fields) (r : Bytes)
    → (text : Bytes) × (members ((name, value) ∷ fields) ++ r ≡ 32 ∷ 34 ∷ text)
unfolding members
members-begin name value [] r =
    (name ++ (34 ∷ 58 ∷ 32 ∷ 34 ∷ (value ++ (34 ∷ r))), member-spelled name value r)
members-begin name value (field ∷ fields) r = (
  name ++ (34 ∷ 58 ∷ 32 ∷ 34 ∷ (value ++ (34 ∷ 44 ∷ (members (field ∷ fields) ++ r)))),
  spelled-tail name value field fields r,
)

read_payload-members :
    (text : Bytes) (fields : Fields)
    → read_members (length (32 ∷ 34 ∷ text)) (32 ∷ 34 ∷ text) ≡ some (fields, 125 ∷ [])
    → read_payload (codes "{ \"payload\": {" ++ 32 ∷ 34 ∷ text) ≡ some fields
unfolding read_payload expect skip read_string equal
read_payload-members text fields h = rw h refl

-- For at most 65536 parameters whose names and values hold no quote, no backslash and no control
-- character: the text of `URLParamsMap2JSON` is read back as an object with the one member
-- `payload`, an object that has the parameters as its members, in the order of the map.
pub read_payload-url_params_map2json :
    (fields : Fields)
    → length fields ≤ 2 ^ 16
    → ArePlain fields
    → read_payload (url_params_map2json fields) ≡ some fields
unfolding read_payload expect skip read_string equal members
read_payload-url_params_map2json [] small plain =
    ap read_payload (url_params_map2json-members [] small) ∙ refl
read_payload-url_params_map2json ((name, value) ∷ fields) small plain =
    let s = members ((name, value) ∷ fields) ++ codes " }}" in
    let (text, begins) = members-begin name value fields (codes " }}") in
    let read : read_members (length s) s ≡ some ((name, value) ∷ fields, 125 ∷ []) =
      members-read (length s) fields name value (125 ∷ [])
        (members-length ((name, value) ∷ fields) (codes " }}")) plain in
    ap read_payload (
      url_params_map2json-members ((name, value) ∷ fields) small
      ∙ ap (λ u. codes "{ \"payload\": {" ++ u) begins)
    ∙ read_payload-members text ((name, value) ∷ fields) (
        subst (λ u. read_members (length u) u ≡ some ((name, value) ∷ fields, 125 ∷ [])) begins
          read)
