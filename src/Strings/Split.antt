-- ===== src/Strings/Split.antt =====
-- `split` in both forms, against the list of tokens that the text spells.
use http.Base.{
  ◌∙◌, ℕ, suc, zero, ◌+◌, ◌<◌, ◌≡◌, refl, sym, ap, true, some, none, List, [], ◌∷◌, ◌++◌,
  append_assoc, append-nil, Bytes, find, starts, length, length-drop, length-append, length-take,
  take-append, drop-append, null, take, drop, arith, Option-cases, inl, inr, All, if◌then◌else◌,
  subst,
}
use http.Strings.{split, split_loop, split_view, split_view_loop}
use http.Strings.Search.{
  find-Found, find-bound, find-splits, find-append, find-empty, find_here, find_there, find-nil,
  starts-append, starts_more,
}

-- Each token ends in a delimiter, and `rest` is what stands behind the last one.
abbrev pub joined : Bytes → List Bytes → Bytes → Bytes
joined d [] rest = rest
joined d (t ∷ ts) rest = t ++ (d ++ joined d ts rest)

-- The first delimiter of the token with its delimiter is the one at its end.
abbrev pub IsToken : Bytes → Bytes → Type 0
IsToken d t = find (t ++ d) d ≡ some (length t)

find_self : (d : Bytes) → find d d ≡ some 0
find_self [] = find-empty []
find_self (x ∷ d) =
    find_here x d (x ∷ d)
      (subst (λ e. starts (x ∷ d) e ≡ true) (append-nil (x ∷ d)) (starts-append (x ∷ d) []))

-- What stands before the first occurrence is a token.
find-take : (s d : Bytes) (p : ℕ) → find s d ≡ some p → find (take p s ++ d) d ≡ some p
find-take [] d p h = let (e, e') = find-nil d p h in rw (e, e') (find-empty [])
find-take (c ∷ s) d p h = elim (find-Found c s d p h) [
  | inl (e, st) ↦ rw e (find_self d)
  | inr (q, e, no_start, f) ↦
      let spelled : c ∷ (take q s ++ d) ++ drop (q + length d) s ≡ c ∷ s =
        ap (◌∷◌ c) (append_assoc (take q s) d _ ∙ sym (find-splits s d q f)) in
      let same =
        starts_more d (c ∷ (take q s ++ d)) (drop (q + length d) s)
          (omega (arith, length-append (take q s) d)) in
      rw e (
        find_there c (take q s ++ d) d q (sym same ∙ ap (starts d) spelled ∙ no_start)
          (find-take s d q f))
]

pub take-IsToken : (s d : Bytes) (p : ℕ) → find s d ≡ some p → IsToken d (take p s)
take-IsToken s d p h =
    let e : length (take p s) ≡ p = omega (arith, length-take p s, find-bound s d p h) in
    rw e (find-take s d p h)

-- Reading on behind a token: the search stops at its end.
pub find-joined : (d t rest : Bytes) → IsToken d t → find (t ++ (d ++ rest)) d ≡ some (length t)
find-joined d t rest h = rw (← append_assoc) (find-append (t ++ d) rest d (length t) h)

pub drop_past : (t d r : Bytes) → drop (length t + length d) (t ++ (d ++ r)) ≡ r
drop_past t d r = rw (← append_assoc, ← length-append) (drop-append (t ++ d) r)

-- The tokens, with the remainder as the last if it is not empty.
abbrev pub with_rest : List Bytes × Bytes → List Bytes
with_rest (out, rest) = if null rest then out else out ++ rest ∷ []

-- What the loop makes of a text, for every text and enough fuel.
pub record IsSplit (d s : Bytes) (out : List Bytes) (r : List Bytes × Bytes) : Type 0 where
  pub tokens : List Bytes
  pub result : r ≡ (out ++ tokens, r.1)
  pub spells : joined d tokens r.1 ≡ s
  pub are_tokens : All (IsToken d) tokens
  pub rest_clean : find r.1 d ≡ none

module _ (d : Bytes) (positive : 0 < length d) where
  pub split_loop-IsSplit :
      (f : ℕ) (s : Bytes) (out : List Bytes) → length s < f → IsSplit d s out (split_loop f s d out)
  unfolding split_loop
  split_loop-IsSplit zero s out h = absurd (omega arith)
  split_loop-IsSplit (suc f) s out h = elim (Option-cases (find s d)) [
    | inl n ↦
        rw (n, split_loop)
          (record {
            tokens = [];
            result = rw append-nil;
            spells = refl;
            are_tokens = tt;
            rest_clean = n;
          })
    | inr (p, e) ↦
        let bound = find-bound s d p e in
        let later =
          split_loop-IsSplit f (drop (p + length d) s) (out ++ take p s ∷ [])
            (omega (arith, length-drop (p + length d) s)) in
        rw (e, split_loop)
          (record {
            tokens = take p s ∷ later.tokens;
            result = later.result ∙ rw append_assoc;
            spells = rw later.spells (sym (find-splits s d p e));
            are_tokens = (take-IsToken s d p e, later.are_tokens);
            rest_clean = later.rest_clean;
          })
  ]

  -- Conversely the loop reads back every list of tokens.
  pub split_loop-joined :
      (f : ℕ) (ts : List Bytes) (rest : Bytes) (out : List Bytes)
      → length (joined d ts rest) < f
      → All (IsToken d) ts
      → find rest d ≡ none
      → split_loop f (joined d ts rest) d out ≡ (out ++ ts, rest)
  unfolding split_loop
  split_loop-joined zero ts rest out h _ _ = absurd (omega arith)
  split_loop-joined (suc f) [] rest out h _ n = rw (n, split_loop) (rw append-nil)
  split_loop-joined (suc f) (t ∷ ts) rest out h (token, tokens) n =
      let later : drop (length t + length d) (joined d (t ∷ ts) rest) ≡ joined d ts rest =
        drop_past t d _ in
      rw (find-joined d t (joined d ts rest) token, split_loop)
        (rw (take-append t (d ++ joined d ts rest), later)
          (split_loop-joined f ts rest (out ++ t ∷ [])
              (omega (
                arith,
                length-append t (d ++ joined d ts rest),
                length-append d (joined d ts rest),
              ))
              tokens n
            ∙ rw append_assoc))

  -- The string_view form makes the same tokens, and one more of a remainder that is not empty.
  split_view_loop-split_loop :
      (f : ℕ) (s : Bytes) (out : List Bytes)
      → length s < f
      → split_view_loop f s d out ≡ with_rest (split_loop f s d out)
  unfolding split_view_loop split_loop
  split_view_loop-split_loop zero s out h = absurd (omega arith)
  split_view_loop-split_loop (suc f) s out h = elim (Option-cases (find s d)) [
    | inl n ↦ rw (n, split_view_loop, split_loop) refl
    | inr (p, e) ↦
        rw (e, split_view_loop, split_loop)
          (split_view_loop-split_loop f (drop (p + length d) s) (out ++ take p s ∷ [])
            (omega (arith, length-drop (p + length d) s, find-bound s d p e)))
  ]

-- For a delimiter that is not empty, `split` cuts the text at the delimiters: the tokens and the
-- rest spell the text, no token holds a delimiter before its end, and the rest holds none.
pub split-IsSplit :
    (s d : Bytes) (out : List Bytes) → 0 < length d → IsSplit d s out (split s d out)
unfolding split
split-IsSplit s d out positive = split_loop-IsSplit d positive (suc (length s)) s out (omega arith)

-- For a delimiter that is not empty, `split` reads back every list of tokens, none of which holds
-- the delimiter before its end, that was joined by the delimiter, and leaves a rest without one.
pub split-joined :
    (d : Bytes) (ts : List Bytes) (rest : Bytes) (out : List Bytes)
    → 0 < length d
    → All (IsToken d) ts
    → find rest d ≡ none
    → split (joined d ts rest) d out ≡ (out ++ ts, rest)
unfolding split
split-joined d ts rest out positive tokens n =
    split_loop-joined d positive (suc (length (joined d ts rest))) ts rest out (omega arith) tokens
      n

pub split_view-split :
    (s d : Bytes) (out : List Bytes) → 0 < length d → split_view s d out ≡ with_rest (split s d out)
unfolding split_view split
split_view-split s d out positive =
    split_view_loop-split_loop d positive (suc (length s)) s out (omega arith)
