-- ===== src/Json/Reading.antt =====
-- A reader of JSON texts like those of URLParamsMap2JSON, and that it reads back the parameters.
use http.Base.{
  ℕ, zero, suc, Bool, true, false, ◌||◌, Option, none, some, [], ◌∷◌, Bytes, codes, equal, length,
  ltb, ◌==◌, if◌then◌else◌,
}
use http.Message.{Fields}

infixr 20 ◌>>=◌
abbrev pub ◌>>=◌ : {A B : Type 0} → Option A → (A → Option B) → Option B
none >>= k = none
some a >>= k = k a

-- White space is blanks, tabulators and ends of line.
unfoldable pub skip : Bytes → Bytes
skip [] = []
skip (b ∷ s) =
    let rest = skip s in if (b == 32) || ((b == 9) || ((b == 10) || (b == 13))) then rest else b ∷ s

-- The byte behind white space.
unfoldable pub expect : ℕ → Bytes → Option Bytes
unfolding skip
expect c s = elim (skip s) [ [] ↦ none | b ∷ rest ↦ if b == c then some rest else none ]

-- A byte that stands for itself in a JSON string.
unfoldable pub is_plain : ℕ → Bool
is_plain b = if (b == 34) || ((b == 92) || ltb b 32) then false else true

-- A string behind its first quote, up to its last one; there is no other escape than none at all.
unfoldable pub read_string : Bytes → Option (Bytes × Bytes)
unfolding is_plain
read_string [] = none
read_string (b ∷ s) =
    let rest = read_string s in
    if b == 34
    then some ([], s)
    else if is_plain b
    then (rest >>= λ r. some (b ∷ r.0, r.1))
    else none

unfoldable pub read_member : Bytes → Option (Bytes × Bytes × Bytes)
unfolding expect read_string
read_member s = do
  s ← expect 34 s
  (name, s) ← read_string s
  s ← expect 58 s
  s ← expect 34 s
  (value, s) ← read_string s
  some (name, value, s)

-- Members up to the end of their object, and what stands behind it.
unfoldable pub read_members : ℕ → Bytes → Option (Fields × Bytes)
unfolding read_member
read_members zero s = none
read_members (suc f) s = do
  (name, value, s) ← read_member s
  elim (expect 44 s) [
    | some t ↦ read_members f t >>= λ r. some ((name, value) ∷ r.0, r.1)
    | none ↦ expect 125 s >>= λ t. some ((name, value) ∷ [], t)
  ]

-- An object whose only member is `payload`, an object of strings.
unfoldable pub read_payload : Bytes → Option Fields
unfolding read_members
read_payload s = do
  s ← expect 123 s
  s ← expect 34 s
  (name, s) ← read_string s
  s ← if equal name (codes "payload") then expect 58 s else none
  s ← expect 123 s
  (fields, s) ← elim (expect 125 s) [ some t ↦ some ([], t) | none ↦ read_members (length s) s ]
  s ← expect 125 s
  elim (skip s) [ [] ↦ some fields | b ∷ t ↦ none ]
