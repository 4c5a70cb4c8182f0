-- ===== src/Strings/Rsplit.antt =====
-- `rsplit` by a delimiter of one byte, as the request line is cut: the words of the text, the
-- last one first.
use native.Mathlib.Nat.{add-zero, suc-add}
use http.Base.{
  All-append, ==_iff, ◌∙◌, ℕ, suc, zero, ◌+◌, ◌-◌, ◌≤◌, ◌<◌, ◌≡◌, ◌≢◌, refl, sym, ap, true, false,
  some, none, List, [], ◌∷◌, ◌++◌, append_assoc, append-nil, Bytes, rfind, starts, length,
  length-append, take-append, drop-append, take, drop, arith, Bool-cases, inl, inr, All,
  if◌then◌else◌, subst, ltb, ◌==◌,
}
use http.Strings.{rsplit, rsplit_loop}

abbrev pub Lacks : ℕ → Bytes → Type 0
Lacks c = All (λ b. b ≢ c)

-- The words of a text between the bytes `c`, the last word first.
abbrev pub spoken : ℕ → Bytes → List Bytes → Bytes
spoken c w [] = w
spoken c w (v ∷ ws) = spoken c v ws ++ c ∷ w

starts_one : (c : ℕ) (x s : Bytes) → starts (c ∷ []) (drop (length x) (x ++ c ∷ s)) ≡ true
unfolding starts
starts_one c x s = rw drop-append (ground arith)

-- Inside a word that lacks `c` there is no occurrence.
starts_none :
    (c : ℕ) (w s : Bytes) (k : ℕ)
    → k < length w
    → Lacks c w
    → starts (c ∷ []) (drop k (w ++ s)) ≡ false
unfolding starts
starts_none c [] s k h l = absurd (omega arith)
starts_none c (b ∷ w) s zero h l = ground arith
starts_none c (b ∷ w) s (suc k) h l = starts_none c w s k (omega arith) l.1

pub drop_add : (x s : Bytes) (k : ℕ) → drop (length x + k) (x ++ s) ≡ drop k s
drop_add [] s k = ap (λ n. drop n s) (omega arith)
drop_add (b ∷ x) s k = rw suc-add (drop_add x s k)

pub rfind_hit : (s d : Bytes) (p : ℕ) → starts d (drop p s) ≡ true → rfind s d p ≡ some p
unfolding rfind
rfind_hit s d zero h = rw h
rfind_hit s d (suc p) h = rw h

pub rfind_miss :
    (s d : Bytes) (p : ℕ) → starts d (drop (suc p) s) ≡ false → rfind s d (suc p) ≡ rfind s d p
unfolding rfind
rfind_miss s d p h = rw h

rfind-word :
    (c : ℕ) (x w s : Bytes) (k : ℕ)
    → k ≤ length w
    → Lacks c w
    → rfind (x ++ c ∷ (w ++ s)) (c ∷ []) (length x + k) ≡ some (length x)
rfind-word c x w s zero h l = rw add-zero (rfind_hit _ _ (length x) (starts_one c x (w ++ s)))
rfind-word c x w s (suc k) h l =
    let e : length x + suc k ≡ suc (length x + k) = omega arith in
    rw e (
      rfind_miss _ _ (length x + k) (rw (← e) (rw drop_add (starts_none c w s k (omega arith) l)))
      ∙ rfind-word c x w s k (omega arith) l)

rfind-Lacks :
    (c : ℕ) (w s : Bytes) (k : ℕ) → k < length w → Lacks c w → rfind (w ++ s) (c ∷ []) k ≡ none
unfolding rfind
rfind-Lacks c w s zero h l = rw (starts_none c w s 0 h l)
rfind-Lacks c w s (suc k) h l =
    rw (starts_none c w s (suc k) h l) (rfind-Lacks c w s k (omega arith) l)

spoken_nil : (c : ℕ) (v : Bytes) (ws : List Bytes) → length (spoken c v ws) ≡ 0 → v ∷ ws ≡ [] ∷ []
spoken_nil c [] [] h = refl
spoken_nil c (b ∷ v) [] h = absurd (omega arith)
spoken_nil c v (u ∷ ws) h = absurd (omega (arith, length-append (spoken c u ws) (c ∷ v)))

-- One round of the loop reads the word `w` behind the last delimiter; `tail` is what the later
-- rounds add.
loop_word :
    (c : ℕ) (x w rest : Bytes) (f last : ℕ) (out tail : List Bytes)
    → Lacks c w
    → (length x ≡ 0 → tail ≡ [] ∷ [])
    → ((m : ℕ) (o : List Bytes)
        → length x ≡ suc m
        → rsplit_loop f (x ++ c ∷ (w ++ rest)) m (c ∷ []) (suc m) o ≡ o ++ tail)
    → rsplit_loop (suc f) (x ++ c ∷ (w ++ rest)) (length x + length w) (c ∷ []) last out
      ≡ out ++ w ∷ tail
unfolding rsplit_loop
loop_word c x w rest f last out tail l stop more =
    rw (rfind-word c x w rest (length w) (omega arith) l, rsplit_loop)
      (rw (drop_add, e) (rw take-append (go (length x) refl)))
  where
    e : length x + length w - length x ≡ length w
    e = omega arith

    go :
        (n : ℕ)
        → length x ≡ n
        → (if ltb n 1
            then (out ++ w ∷ []) ++ take n (x ++ c ∷ (w ++ rest)) ∷ []
            else rsplit_loop f (x ++ c ∷ (w ++ rest)) (n - 1) (c ∷ []) n (out ++ w ∷ []))
          ≡ out ++ w ∷ tail
    go zero e0 = rw (stop e0) (append_assoc out (w ∷ []) ([] ∷ []))
    go (suc m) e1 =
        let e2 : suc m - 1 ≡ m = omega arith in
        let e3 : ltb (suc m) 1 ≡ false = ground arith in
        rw (e2, e3) (more m (out ++ w ∷ []) e1 ∙ append_assoc out (w ∷ []) tail)

-- The loop from the end of a text of words that is not empty.
loop_spoken :
    (c : ℕ) (ws : List Bytes) (w rest : Bytes) (f k : ℕ) (out : List Bytes)
    → length (spoken c w ws) ≡ suc k
    → k < f
    → Lacks c w
    → All (Lacks c) ws
    → rsplit_loop f (spoken c w ws ++ rest) k (c ∷ []) (suc k) out ≡ out ++ w ∷ ws
unfolding rsplit_loop
loop_spoken c ws w rest zero k out e h l ls = absurd (omega arith)
loop_spoken c [] w rest (suc f) k out e h l ls =
    rw (rfind-Lacks c w rest k (omega arith) l, rsplit_loop) (rw (← e) (rw take-append refl))
loop_spoken c (v ∷ ws) w rest (suc f) k out e h l ls =
    let k_is : k ≡ length (spoken c v ws) + length w =
      omega (arith, length-append (spoken c v ws) (c ∷ w)) in
    rw (append_assoc, k_is)
      (loop_word c (spoken c v ws) w rest f (suc (length (spoken c v ws) + length w)) out (v ∷ ws) l
        (spoken_nil c v ws)
        λ m o em. loop_spoken c ws v (c ∷ (w ++ rest)) f m o em (omega (arith, k_is, em)) ls.0 ls.1)

-- A text of two words or more: exactly the words, the last one first. Nothing behind `start`
-- matters.
pub rsplit-spoken :
    (c : ℕ) (w v : Bytes) (ws : List Bytes) (rest : Bytes)
    → All (Lacks c) (w ∷ v ∷ ws)
    → rsplit (spoken c w (v ∷ ws) ++ rest) (length (spoken c w (v ∷ ws))) (c ∷ []) [] ≡ w ∷ v ∷ ws
unfolding rsplit
rsplit-spoken c w v ws rest (lw, ls) =
    let x = spoken c v ws in
    let total : length (x ++ c ∷ w) ≡ suc (length x + length w) =
      omega (arith, length-append x (c ∷ w)) in
    let not_short : ltb (suc (length x + length w)) 1 ≡ false = ground arith in
    let before : suc (length x + length w) - 1 ≡ length x + length w = omega arith in
    rw (append_assoc, total, not_short, before)
      (loop_word c x w rest (suc (length x + length w)) 0 [] (v ∷ ws) lw (spoken_nil c v ws)
        λ m o em.
          loop_spoken c ws v (c ∷ (w ++ rest)) (suc (length x + length w)) m o em
            (omega (arith, em)) ls.0 ls.1)

-- A text with no delimiter gives one empty word.
pub rsplit-Lacks :
    (c : ℕ) (w rest : Bytes) → Lacks c w → rsplit (w ++ rest) (length w) (c ∷ []) [] ≡ [] ∷ []
unfolding rsplit rsplit_loop
rsplit-Lacks c [] rest l = refl
rsplit-Lacks c (b ∷ w) rest l =
    let not_short : ltb (suc (length w)) 1 ≡ false = ground arith in
    let before : suc (length w) - 1 ≡ length w = omega arith in
    rw (not_short, before)
      (rw (rfind-Lacks c (b ∷ w) rest (length w) (omega arith) l, rsplit_loop) refl)

-- The words of a text, by one scan from its front: `w` is the word so far, `ws` those before it.
unfoldable pub words : ℕ → Bytes → List Bytes → Bytes → Bytes × List Bytes
words c w ws [] = (w, ws)
words c w ws (b ∷ s) =
    let next = words c [] (w ∷ ws) s in
    let same = words c (w ++ b ∷ []) ws s in if b == c then next else same

spoken_snoc :
    (c b : ℕ) (w : Bytes) (ws : List Bytes) → spoken c (w ++ b ∷ []) ws ≡ spoken c w ws ++ b ∷ []
spoken_snoc c b w [] = refl
spoken_snoc c b w (v ∷ ws) = sym (append_assoc (spoken c v ws) (c ∷ w) (b ∷ []))

words-spoken :
    (c : ℕ) (w : Bytes) (ws : List Bytes) (s : Bytes)
    → spoken c (words c w ws s).0 (words c w ws s).1 ≡ spoken c w ws ++ s
unfolding words
words-spoken c w ws [] = sym (append-nil (spoken c w ws))
words-spoken c w ws (b ∷ s) = elim (Bool-cases (b == c)) [
  | inl e ↦ rw e (
      words-spoken c [] (w ∷ ws) s
      ∙ rw append_assoc (ap (λ x. spoken c w ws ++ x ∷ s) (sym ((==_iff b c).0 e))))
  | inr e ↦
      rw e (
        words-spoken c (w ++ b ∷ []) ws s
        ∙ rw spoken_snoc (append_assoc (spoken c w ws) (b ∷ []) s))
]

words-Lacks :
    (c : ℕ) (w : Bytes) (ws : List Bytes) (s : Bytes)
    → Lacks c w
    → All (Lacks c) ws
    → Lacks c (words c w ws s).0 × All (Lacks c) (words c w ws s).1
unfolding words
words-Lacks c w ws [] l ls = (l, ls)
words-Lacks c w ws (b ∷ s) l ls = elim (Bool-cases (b == c)) [
  | inl e ↦ rw e (words-Lacks c [] (w ∷ ws) s tt (l, ls))
  | inr e ↦ rw e (
      words-Lacks c (w ++ b ∷ []) ws s (All-append (λ x. x ≢ c) w (b ∷ []) l (ground arith, tt)) ls)
]

-- What `rsplit` returns for the first bytes of a text, by its words.
abbrev pub last_first : Bytes × List Bytes → List Bytes
last_first (w, []) = [] ∷ []
last_first (w, v ∷ ws) = w ∷ v ∷ ws

rsplit_parts :
    (c : ℕ) (w : Bytes) (ws : List Bytes) (rest : Bytes)
    → Lacks c w
    → All (Lacks c) ws
    → rsplit (spoken c w ws ++ rest) (length (spoken c w ws)) (c ∷ []) [] ≡ last_first (w, ws)
rsplit_parts c w [] rest l ls = rsplit-Lacks c w rest l
rsplit_parts c w (v ∷ ws) rest l ls = rsplit-spoken c w v ws rest (l, ls)

-- For a delimiter of one byte `rsplit` returns the words of the first `start` bytes, the last
-- one first, and one empty word if there is no delimiter among them.
pub rsplit-words :
    (c : ℕ) (s rest : Bytes)
    → rsplit (s ++ rest) (length s) (c ∷ []) [] ≡ last_first (words c [] [] s)
rsplit-words c s rest =
    let (l, ls) = words-Lacks c [] [] s tt tt in
    subst (λ t. rsplit (t ++ rest) (length t) (c ∷ []) [] ≡ last_first (words c [] [] s))
      (words-spoken c [] [] s) (rsplit_parts c (words c [] [] s).0 (words c [] [] s).1 rest l ls)
