-- ===== src/Strings/Search.antt =====
-- Laws of the searches: where an occurrence lies, and that more text behind it moves nothing.
use native.Mathlib.Nat.{zero-add, suc-add}
use http.Base.{
  ◌⊎◌, ◌∙◌, ℕ, suc, ◌+◌, ◌≤◌, ◌≡◌, refl, ap, true, false, some, [], ◌∷◌, ◌++◌, Bytes, find, starts,
  length, take, drop, arith, Bool-cases, Option-cases, inl, inr,
}

pub starts-length : (d s : Bytes) → starts d s ≡ true → length d ≤ length s
unfolding starts
starts-length [] s h = omega arith
starts-length (x ∷ d) [] h = cc
starts-length (x ∷ d) (c ∷ s) h = ground (arith, starts-length d s)

pub starts-append : (d s : Bytes) → starts d (d ++ s) ≡ true
unfolding starts
starts-append [] s = refl
starts-append (x ∷ d) s = ground (arith, starts-append d s)

pub starts-take : (d s : Bytes) → starts d s ≡ true → s ≡ d ++ drop (length d) s
unfolding starts
starts-take [] s h = refl
starts-take (x ∷ d) [] h = cc
starts-take (x ∷ d) (c ∷ s) h = ground (arith, starts-take d s)

pub starts_more : (d s r : Bytes) → length d ≤ length s → starts d (s ++ r) ≡ starts d s
unfolding starts
starts_more [] s r h = refl
starts_more (x ∷ d) [] r h = absurd (omega arith)
starts_more (x ∷ d) (c ∷ s) r h = ground (arith, starts_more d s r (omega arith))

-- `find` on a text that is not empty: here, or one further on in the tail.
pub find-empty : (s : Bytes) → find s [] ≡ some 0
unfolding find starts
find-empty [] = refl
find-empty (c ∷ s) = refl

pub find_here : (c : ℕ) (s d : Bytes) → starts d (c ∷ s) ≡ true → find (c ∷ s) d ≡ some 0
unfolding find
find_here c s d h = rw h

pub find_there :
    (c : ℕ) (s d : Bytes) (q : ℕ)
    → starts d (c ∷ s) ≡ false
    → find s d ≡ some q
    → find (c ∷ s) d ≡ some (suc q)
unfolding find
find_there c s d q h f = rw (h, f)

abbrev pub Found : ℕ → Bytes → Bytes → ℕ → Type 0
Found c s d p =
    ((p ≡ 0) × (starts d (c ∷ s) ≡ true))
    ⊎ ((q : ℕ) × (p ≡ suc q) × (starts d (c ∷ s) ≡ false) × (find s d ≡ some q))

pub find-Found : (c : ℕ) (s d : Bytes) (p : ℕ) → find (c ∷ s) d ≡ some p → Found c s d p
unfolding find
find-Found c s d p h = elim (Bool-cases (starts d (c ∷ s))) [
  | inl e ↦ inl (ground arith, e)
  | inr e ↦ elim (Option-cases (find s d)) [
    | inl n ↦ absurd (ground arith)
    | inr (q, eq) ↦ inr (q, ground arith, e, eq)
  ]
]

pub find-nil : (d : Bytes) (p : ℕ) → find [] d ≡ some p → (p ≡ 0) × (d ≡ [])
unfolding find
find-nil [] p h = ground arith
find-nil (x ∷ d) p h = absurd (cc)

-- An occurrence lies within the text, and the text spells the delimiter there.
pub find-bound : (s d : Bytes) (p : ℕ) → find s d ≡ some p → p + length d ≤ length s
find-bound [] d p h = let (e, e') = find-nil d p h in omega (arith, e, ap length e')
find-bound (c ∷ s) d p h = elim (find-Found c s d p h) [
  | inl (e, st) ↦ omega (arith, e, starts-length d (c ∷ s) st)
  | inr (q, e, _, f) ↦ omega (arith, e, find-bound s d q f)
]

pub find-splits :
    (s d : Bytes) (p : ℕ) → find s d ≡ some p → s ≡ take p s ++ (d ++ drop (p + length d) s)
find-splits [] d p h = let (e, e') = find-nil d p h in rw (e, e')
find-splits (c ∷ s) d p h = elim (find-Found c s d p h) [
  | inl (e, st) ↦ rw (e, zero-add) (starts-take d (c ∷ s) st)
  | inr (q, e, _, f) ↦ rw (e, suc-add) (ap (◌∷◌ c) (find-splits s d q f))
]

-- The first occurrence stays the first when text is added behind it.
pub find-append : (s r d : Bytes) (p : ℕ) → find s d ≡ some p → find (s ++ r) d ≡ some p
find-append [] r d p h = let (e, e') = find-nil d p h in rw (e, e') (find-empty r)
find-append (c ∷ s) r d p h = elim (find-Found c s d p h) [
  | inl (e, st) ↦
      rw e (find_here c (s ++ r) d (starts_more d (c ∷ s) r (starts-length d _ st) ∙ st))
  | inr (q, e, no_start, f) ↦ rw e (
      find_there c (s ++ r) d q
        (starts_more d (c ∷ s) r (omega (arith, find-bound s d q f)) ∙ no_start)
        (find-append s r d q f))
]
