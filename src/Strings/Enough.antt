-- ===== src/Strings/Enough.antt =====
-- The rounds of the loops of rsplit and of the split of a view are enough.
use http.Base.{
  ℕ, zero, suc, ◌+◌, ◌-◌, ◌≤◌, ◌<◌, ◌≡◌, refl, sym, ◌∙◌, inl, inr, false, none, some, List, [], ◌∷◌,
  ◌++◌, Bytes, starts, find, rfind, take, drop, substr, length, length-drop, arith, ltb, Bool-cases,
  Option-cases,
}
use http.Strings.{split_view_loop, split_view, rsplit_loop, rsplit}
use http.Strings.Search.{find-bound}

rfind-bound : (s d : Bytes) (start pos : ℕ) → rfind s d start ≡ some pos → pos ≤ start
rfind-bound s d zero pos h = elim (Bool-cases (starts d s)) [
  | inl t ↦
      let e : rfind s d zero ≡ some 0 = unfold rfind in rw t refl in
      let same : 0 ≡ pos = cc in omega arith
  | inr t ↦ let e : rfind s d zero ≡ none = unfold rfind in rw t refl in absurd cc
]
rfind-bound s d (suc start) pos h = elim (Bool-cases (starts d (drop (suc start) s))) [
  | inl t ↦
      let e : rfind s d (suc start) ≡ some (suc start) = unfold rfind in rw t refl in
      let same : suc start ≡ pos = cc in omega arith
  | inr t ↦
      let e : rfind s d (suc start) ≡ rfind s d start = unfold rfind in rw t refl in
      let less = rfind-bound s d start pos (sym e ∙ h) in omega arith
]

-- Two numbers of rounds, each more than the start position, give the same.
rsplit_loop-same :
    (f g : ℕ) (s : Bytes) (start : ℕ) (d : Bytes) (last : ℕ) (out : List Bytes)
    → 0 < length d
    → start < f
    → start < g
    → rsplit_loop f s start d last out ≡ rsplit_loop g s start d last out
unfolding rsplit_loop
rsplit_loop-same zero g s start d last out long enough enough' = absurd (omega arith)
rsplit_loop-same (suc f) zero s start d last out long enough enough' = absurd (omega arith)
rsplit_loop-same (suc f) (suc g) s start d last out long enough enough' =
    elim (Option-cases (rfind s d start)) [
      | inl n ↦ rw (n, rsplit_loop) refl
      | inr (pos, e) ↦
          let bound = rfind-bound s d start pos e in
          let out' = out ++ substr (pos + length d) (start - pos) s ∷ [] in
          elim (Bool-cases (ltb pos (length d))) [
            | inl t ↦ rw (e, rsplit_loop) (rw t refl)
            | inr t ↦
                let less : length d ≤ pos = ground arith in
                rw (e, rsplit_loop)
                  (rw t (
                    rsplit_loop-same f g s (pos - length d) d pos out' long (omega arith)
                      (omega arith)))
          ]
    ]

-- More rounds of the loop of rsplit than the position it starts from give what rsplit gives.
pub rsplit-enough :
    (f : ℕ) (s : Bytes) (start : ℕ) (d : Bytes) (out : List Bytes)
    → 0 < length d
    → ltb start (length d) ≡ false
    → start < f
    → rsplit_loop f s (start - length d) d 0 out ≡ rsplit s start d out
rsplit-enough f s start d out long behind more =
    unfold rsplit in
    rw behind
      (rsplit_loop-same f (suc start) s (start - length d) d 0 out long (omega arith) (omega arith))

split_view_loop-same :
    (f g : ℕ) (sv d : Bytes) (out : List Bytes)
    → 0 < length d
    → length sv < f
    → length sv < g
    → split_view_loop f sv d out ≡ split_view_loop g sv d out
unfolding split_view_loop
split_view_loop-same zero g sv d out long enough enough' = absurd (omega arith)
split_view_loop-same (suc f) zero sv d out long enough enough' = absurd (omega arith)
split_view_loop-same (suc f) (suc g) sv d out long enough enough' =
    elim (Option-cases (find sv d)) [
      | inl n ↦ rw (n, split_view_loop) refl
      | inr (pos, e) ↦
          let bound = find-bound sv d pos e in
          let rest = length-drop (pos + length d) sv in
          rw (e, split_view_loop)
            (split_view_loop-same f g (drop (pos + length d) sv) d (out ++ take pos sv ∷ []) long
              (omega arith) (omega arith))
    ]

-- More rounds of the loop of the split of a view than the view has bytes give what it gives.
pub split_view-enough :
    (f : ℕ) (sv d : Bytes) (out : List Bytes)
    → 0 < length d
    → length sv < f
    → split_view_loop f sv d out ≡ split_view sv d out
split_view-enough f sv d out long more =
    unfold split_view in split_view_loop-same f (suc (length sv)) sv d out long more (omega arith)
