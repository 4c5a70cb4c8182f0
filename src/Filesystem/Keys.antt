-- ===== src/Filesystem/Keys.antt =====
-- Under which key a file is found.
use http.Base.{
  ==_iff, ◌&&◌, drop-add, ℕ, zero, suc, ◌+◌, ◌-◌, ◌≤◌, ◌≡◌, ◌≢◌, refl, sym, ◌∙◌, ap, ap₂, ◌⊎◌, inl,
  inr, true, false, Option, none, some, List, [], ◌∷◌, ◌++◌, Bytes, codes, equal, starts, rfind,
  substr, length, length-append, length-drop, length-take, take, drop, take-append-drop,
  drop-append, drop-append_le, arith, Bool-cases, if◌then◌else◌, ==_refl, ◌==◌,
}
use http.Strings.Search.{starts-take, starts-length}
use http.Strings.Rsplit.{rfind_hit, rfind_miss}
use native.Mathlib.Nat.{add-zero}
use http.Filesystem.{
  FileProperties, Filesystem, lookup, name_of, directory_of, replace_path, file_list_key,
}

-- The last occurrence is where there is one, or behind it.
rfind-last_from :
    (s d : Bytes) (i k : ℕ)
    → starts d (drop i s) ≡ true
    → (q : ℕ) × (rfind s d (i + k) ≡ some q) × (i ≤ q) × (starts d (drop q s) ≡ true)
rfind-last_from s d i zero h = (i, rw add-zero (rfind_hit s d i h), omega arith, h)
rfind-last_from s d i (suc k) h =
    let e : i + suc k ≡ suc (i + k) = omega arith in
    elim (Bool-cases (starts d (drop (suc (i + k)) s))) [
      | inl t ↦ (suc (i + k), rw e (rfind_hit s d (suc (i + k)) t), omega arith, t)
      | inr f ↦
          let (q, r, low, st) = rfind-last_from s d i k h in
          (q, rw e (rfind_miss s d (i + k) f ∙ r), low, st)
    ]

take-all : (n : ℕ) (s : Bytes) → length s ≤ n → take n s ≡ s
take-all zero [] h = refl
take-all zero (c ∷ s) h = absurd (omega arith)
take-all (suc n) [] h = refl
take-all (suc n) (c ∷ s) h = ap (λ r. c ∷ r) (take-all n s (omega arith))

module _ (pre rel : Bytes) where
  abbrev file : Bytes
  file = pre ++ (codes "/" ++ rel)

  slash-starts : starts (codes "/") (drop (length pre) file) ≡ true
  unfolding starts
  slash-starts = rw (drop-append pre (codes "/" ++ rel)) refl

  -- The last slash of a path below `pre`: what stands before it reaches over `pre`, and both parts
  -- make up the path.
  directory-name :
      (length pre ≤ length (directory_of file))
      × (directory_of file ++ (codes "/" ++ name_of file) ≡ file)
  unfolding directory_of name_of
  directory-name =
      let long : length file ≡ length pre + suc (length rel) =
        omega (arith, length-append pre (codes "/" ++ rel)) in
      let (q, found, low, st) =
        rfind-last_from file (codes "/") (length pre) (suc (length rel)) slash-starts in
      let at : rfind file (codes "/") (length file) ≡ some q = rw long found in
      let inside : 1 ≤ length (drop q file) = starts-length (codes "/") (drop q file) st in
      let cut : drop q file ≡ codes "/" ++ drop (q + 1) file =
        starts-take (codes "/") (drop q file) st
        ∙ ap (λ r. codes "/" ++ r) (sym (drop-add q 1 file)) in
      let tail : substr (q + 1) (length file - q) file ≡ drop (q + 1) file =
        take-all (length file - q) (drop (q + 1) file) (omega (arith, length-drop (q + 1) file)) in
      rw (at, directory_of, name_of)
        (
          omega (arith, low, inside, length-take q file, length-drop q file),
          ap (λ r. take q file ++ (codes "/" ++ r)) tail
              ∙ (ap (λ r. take q file ++ r) (sym cut) ∙ take-append-drop q file),
        )

-- The directory of a path below `pre` reaches over `pre`.
pub directory_of-length :
    (pre rel : Bytes) → length pre ≤ length (directory_of (pre ++ (codes "/" ++ rel)))
directory_of-length pre rel = (directory-name pre rel).0

-- A file below the directory of static files has as its key the path below it.
pub file_list_key-relative :
    (fs : Filesystem) (rel : Bytes)
    → file_list_key fs (replace_path fs ++ (codes "/" ++ rel)) ≡ codes "/" ++ rel
unfolding file_list_key
file_list_key-relative fs rel =
    let pre = replace_path fs in
    let whole = pre ++ (codes "/" ++ rel) in
    let (low, parts) = directory-name pre rel in
    let tail : take (length (directory_of whole) - length pre)
          (drop (length pre) (directory_of whole))
        ≡ drop (length pre) (directory_of whole) =
      take-all (length (directory_of whole) - length pre) _
        (omega (arith, length-drop (length pre) (directory_of whole))) in
    ap (λ r. r ++ (codes "/" ++ name_of whole)) tail
    ∙ (sym (drop-append_le (length pre) (directory_of whole) (codes "/" ++ name_of whole) low)
        ∙ (ap (drop (length pre)) parts ∙ drop-append pre (codes "/" ++ rel)))

equal_refl : (s : Bytes) → equal s s ≡ true
unfolding equal
equal_refl [] = refl
equal_refl (c ∷ s) = rw (==_refl c) (equal_refl s)

module _ (key : Bytes) (props : FileProperties) where
  pub lookup-append_here :
      (entries : List (Bytes × FileProperties))
      → lookup key entries ≡ none
      → lookup key (entries ++ (key, props) ∷ []) ≡ some props
  unfolding lookup
  lookup-append_here [] h = rw (equal_refl key) refl
  lookup-append_here ((k, a) ∷ entries) h = elim (Bool-cases (equal k key)) [
    | inl same ↦
        absurd (none-some (sym h ∙ ap (λ b. if b then some a else lookup key entries) same))
    | inr other ↦ rw other (
        lookup-append_here entries
          (sym (ap (λ b. if b then some a else lookup key entries) other) ∙ h))
  ]
    where
      none-some : {a : FileProperties} → ◌≢◌ {A = Option FileProperties} none (some a)
      none-some h = cc

  -- An entry that is found stays found.
  pub lookup-append_there :
      (k : Bytes) (a : FileProperties) (entries : List (Bytes × FileProperties))
      → lookup k entries ≡ some a
      → lookup k (entries ++ (key, props) ∷ []) ≡ some a
  unfolding lookup
  lookup-append_there k a [] h = absurd cc
  lookup-append_there k a ((n, b) ∷ entries) h = elim (Bool-cases (equal n k)) [
    | inl same ↦ rw same (sym (ap (λ t. if t then some b else lookup k entries) same) ∙ h)
    | inr other ↦ rw other (
        lookup-append_there k a entries
          (sym (ap (λ t. if t then some b else lookup k entries) other) ∙ h))
  ]

  -- What is found after an entry was added was there, or is the entry.
  pub lookup-append :
      (k : Bytes) (a : FileProperties) (entries : List (Bytes × FileProperties))
      → lookup k (entries ++ (key, props) ∷ []) ≡ some a
      → (lookup k entries ≡ some a) ⊎ ((equal key k ≡ true) × (props ≡ a))
  unfolding lookup
  lookup-append k a [] h = elim (Bool-cases (equal key k)) [
    | inl same ↦
        let found : some props ≡ some a = sym (ap (λ t. if t then some props else none) same) ∙ h in
        inr (same, cc)
    | inr other ↦ inl (sym (ap (λ t. if t then some props else none) other) ∙ h)
  ]
  lookup-append k a ((n, b) ∷ entries) h = elim (Bool-cases (equal n k)) [
    | inl same ↦ inl (
        rw same
          (sym (ap (λ t. if t then some b else lookup k (entries ++ (key, props) ∷ [])) same) ∙ h))
    | inr other ↦ rw other (
        lookup-append k a entries
          (sym (ap (λ t. if t then some b else lookup k (entries ++ (key, props) ∷ [])) other) ∙ h))
  ]

pub equal→path : (s t : Bytes) → equal s t ≡ true → s ≡ t
unfolding equal
equal→path [] [] h = refl
equal→path [] (d ∷ t) h = absurd cc
equal→path (c ∷ s) [] h = absurd cc
equal→path (c ∷ s) (d ∷ t) h = elim (Bool-cases (c == d)) [
  | inl same ↦
      ap₂ (λ x r. x ∷ r) ((==_iff c d).0 same)
        (equal→path s t (sym (ap (λ b. b && equal s t) same) ∙ h))
  | inr other ↦ absurd (false-true (sym (ap (λ b. b && equal s t) other) ∙ h))
]
  where
    false-true : false ≢ true
    false-true h = cc
