-- ===== src/Strings/Cut.antt =====
-- What `rsplit` does on a text with a delimiter of several bytes, round by round.
use http.Base.{
  ℕ, zero, suc, ◌+◌, ◌-◌, ◌≤◌, ◌<◌, ◌≡◌, refl, ◌∙◌, ap, Bytes, List, [], ◌∷◌, ◌++◌, find, rfind,
  starts, Option-cases, inl, inr, ltb, length, length-append, drop, take, take-append, append_assoc,
  Bool-cases, arith, true, false, if◌then◌else◌, some, none, substr,
}
use native.Mathlib.Nat.{add-zero}
use http.Strings.{rsplit, rsplit_loop}
use http.Strings.Rsplit.{Lacks, rfind_hit, rfind_miss}
use http.Strings.Split.{drop_past}
use http.Strings.Search.{find_here, find_there}

module _ (c : ℕ) (d : Bytes) where
  pub starts-Lacks : (w : Bytes) (i : ℕ) → Lacks c w → starts (c ∷ d) (drop i w) ≡ false
  unfolding starts
  starts-Lacks [] zero l = refl
  starts-Lacks [] (suc i) l = refl
  starts-Lacks (b ∷ w) zero l = ground arith
  starts-Lacks (b ∷ w) (suc i) l = starts-Lacks w i l.1

  pub starts_within :
      (w s : Bytes) (i : ℕ) → i < length w → Lacks c w → starts (c ∷ d) (drop i (w ++ s)) ≡ false
  unfolding starts
  starts_within [] s i h l = absurd (omega arith)
  starts_within (b ∷ w) s zero h l = ground arith
  starts_within (b ∷ w) s (suc i) h l = starts_within w s i (omega arith) l.1

  pub find-Lacks :
      (w s : Bytes) → Lacks c w → starts (c ∷ d) s ≡ true → find (w ++ s) (c ∷ d) ≡ some (length w)
  find-Lacks [] [] l h = absurd (unfold starts in cc h)
  find-Lacks [] (x ∷ s) l h = find_here x s (c ∷ d) h
  find-Lacks (b ∷ w) s l h =
      find_there b (w ++ s) (c ∷ d) (length w) (unfold starts in ground arith)
        (find-Lacks w s l.1 h)

pub rfind_last :
    (s d : Bytes) (q k : ℕ)
    → starts d (drop q s) ≡ true
    → ((j : ℕ) → starts d (drop (q + suc j) s) ≡ false)
    → rfind s d (q + k) ≡ some q
rfind_last s d q zero hit miss = rw add-zero (rfind_hit s d q hit)
rfind_last s d q (suc k) hit miss =
    let e : q + suc k ≡ suc (q + k) = omega arith in
    rw e (rfind_miss s d (q + k) (rw (← e) (miss k)) ∙ rfind_last s d q k hit miss)

pub rfind-none :
    (s d : Bytes) (p : ℕ) → ((j : ℕ) → j ≤ p → starts d (drop j s) ≡ false) → rfind s d p ≡ none
unfolding rfind
rfind-none s d zero miss = rw (miss 0 (omega arith))
rfind-none s d (suc p) miss =
    rw (rfind_miss s d p (miss (suc p) (omega arith)))
      (rfind-none s d p (λ j h. miss j (omega arith)))

-- An occurrence at `i` or before is found, here or later.
pub rfind-some :
    (s d : Bytes) (i k : ℕ) → starts d (drop i s) ≡ true → (q : ℕ) × (rfind s d (i + k) ≡ some q)
rfind-some s d i zero h = (i, rw add-zero (rfind_hit s d i h))
rfind-some s d i (suc k) h =
    let e : i + suc k ≡ suc (i + k) = omega arith in
    elim (Bool-cases (starts d (drop (suc (i + k)) s))) [
      | inl t ↦ (suc (i + k), rw e (rfind_hit s d (suc (i + k)) t))
      | inr f ↦ let (q, r) = rfind-some s d i k h in (q, rw e (rfind_miss s d (i + k) f ∙ r))
    ]

-- The loop only adds to its result, and at least one part.
pub rsplit_loop_grows :
    (f : ℕ) (s : Bytes) (start : ℕ) (d : Bytes) (last : ℕ) (out : List Bytes)
    → (w : Bytes) × (ws : List Bytes) × (rsplit_loop f s start d last out ≡ out ++ w ∷ ws)
unfolding rsplit_loop
rsplit_loop_grows zero s start d last out = (take last s, [], refl)
rsplit_loop_grows (suc f) s start d last out = elim (Option-cases (rfind s d start)) [
  | inl n ↦ (take last s, [], rw (n, rsplit_loop) refl)
  | inr (pos, e) ↦
      let part = substr (pos + length d) (start - pos) s in
      let (w, ws, h) = rsplit_loop_grows f s (pos - length d) d pos (out ++ part ∷ []) in
      elim (Bool-cases (ltb pos (length d))) [
        | inl t ↦
            (part, take pos s ∷ [], rw (e, rsplit_loop) (rw t (append_assoc out (part ∷ []) _)))
        | inr t ↦ (part, w ∷ ws, rw (e, rsplit_loop) (rw t (h ∙ append_assoc out (part ∷ []) _)))
      ]
]

pub rsplit_long :
    (s : Bytes) (start : ℕ) (d : Bytes)
    → length d ≤ start
    → rsplit s start d [] ≡ rsplit_loop (suc start) s (start - length d) d 0 []
unfolding rsplit
rsplit_long s start d h = let e : ltb start (length d) ≡ false = ground arith in rw e refl

pub loop_hit :
    (f : ℕ) (s : Bytes) (start : ℕ) (d : Bytes) (last : ℕ) (out : List Bytes) (pos : ℕ)
    (part : Bytes)
    → rfind s d start ≡ some pos
    → substr (pos + length d) (start - pos) s ≡ part
    → rsplit_loop (suc f) s start d last out ≡ (
        if ltb pos (length d)
        then (out ++ part ∷ []) ++ take pos s ∷ []
        else rsplit_loop f s (pos - length d) d pos (out ++ part ∷ []))
unfolding rsplit_loop
loop_hit f s start d last out pos part e p = rw (e, rsplit_loop) (rw p refl)

pub take_all : (b : Bytes) (n : ℕ) → n ≡ length b → take n b ≡ b
take_all [] zero e = refl
take_all [] (suc n) e = refl
take_all (c ∷ b) zero e = absurd (omega arith)
take_all (c ∷ b) (suc n) e = ap (◌∷◌ c) (take_all b n (omega arith))

-- The first round of `rsplit` on a line whose last separator stands behind `x`.
pub rsplit_line :
    (x d b : Bytes)
    → rfind (x ++ (d ++ b)) d (length x + length b) ≡ some (length x)
    → rsplit (x ++ (d ++ b)) (length (x ++ (d ++ b))) d [] ≡ (
        if ltb (length x) (length d)
        then b ∷ x ∷ []
        else rsplit_loop
            (length (x ++ (d ++ b)))
            (x ++ (d ++ b))
            (length x - length d)
            d
            (length x)
            (b ∷ []))
rsplit_line x d b found =
    let line = x ++ (d ++ b) in
    let total : length line ≡ length x + length d + length b =
      omega (arith, length-append x (d ++ b), length-append d b) in
    let before : length line - length d ≡ length x + length b = omega arith in
    let part : substr (length x + length d) (length line - length d - length x) line ≡ b =
      rw drop_past (take_all b _ (omega arith)) in
    rsplit_long line (length line) d (omega arith)
    ∙ loop_hit (length line) line (length line - length d) d 0 [] (length x) b (rw before found)
        part
    ∙ rw take-append refl

-- A round of the loop that finds a delimiter adds two parts or more.
pub loop_two_parts :
    (f : ℕ) (s : Bytes) (start : ℕ) (d : Bytes) (last : ℕ) (out : List Bytes) (pos : ℕ)
    → rfind s d start ≡ some pos
    → (q r : Bytes) × (ws : List Bytes) × (rsplit_loop (suc f) s start d last out
        ≡ out ++ q ∷ r ∷ ws)
loop_two_parts f s start d last out pos e =
    let part = substr (pos + length d) (start - pos) s in
    let hit = loop_hit f s start d last out pos part e refl in
    let (w, ws, h) = rsplit_loop_grows f s (pos - length d) d pos (out ++ part ∷ []) in
    elim (Bool-cases (ltb pos (length d))) [
      | inl t ↦ (part, take pos s, [], hit ∙ rw t (append_assoc out (part ∷ []) _))
      | inr t ↦ (part, w, ws, hit ∙ rw t (h ∙ append_assoc out (part ∷ []) _))
    ]
