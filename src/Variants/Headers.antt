-- ===== src/Variants/Headers.antt =====
-- Header lines: where the two builds agree, and where the build for C++11 drops a field.
use http.Base.{
  ltb-false, ◌⊎◌, subst, ℕ, zero, suc, ◌+◌, ◌-◌, ◌≡◌, ◌≢◌, refl, ◌∙◌, ap, sym, Bytes, List, [], ◌∷◌,
  ◌++◌, codes, rfind, starts, inl, inr, ltb, length, length-append, drop, take-append, drop-append,
  append_assoc, Bool-cases, arith, true, false, null, if◌then◌else◌, some,
}
use http.Strings.{rsplit, rsplit_loop}
use http.Strings.Rsplit.{Lacks, drop_add}
use http.Strings.Split.{drop_past}
use http.Strings.Cut.{
  starts_within, starts-Lacks, find-Lacks, rfind_last, rfind-none, rfind-some, rsplit_line,
  loop_two_parts,
}
use http.Message.{Fields, emplace}
use http.Modern
use http.Legacy

abbrev pub field_separator : Bytes
field_separator = codes ": "

starts_separator :
    (x b : Bytes) → starts field_separator (drop (length x) (x ++ (field_separator ++ b))) ≡ true
unfolding starts
starts_separator x b = rw drop-append refl

-- Behind a text with no colon the last separator is found.
last_separator :
    (x b : Bytes)
    → Lacks b':' b
    → rfind (x ++ (field_separator ++ b)) field_separator (length x + length b) ≡ some (length x)
last_separator x b l =
    rfind_last _ field_separator (length x) (length b) (starts_separator x b)
      λ j. rw drop_add (behind j)
  where
    behind : (j : ℕ) → starts field_separator (drop j (b' ' ∷ b)) ≡ false
    behind zero = unfold starts in refl
    behind (suc i) = starts-Lacks b':' (b' ' ∷ []) b i l

not_null : (s : Bytes) → s ≢ [] → null s ≡ false
not_null [] h = absurd (h refl)
not_null (c ∷ s) h = refl

positive : (s : Bytes) → s ≢ [] → ltb 0 (length s) ≡ true
positive [] h = absurd (h refl)
positive (c ∷ s) h = ground arith

-- The build for C++23 cuts at the first separator.
modern_line :
    (k value : Bytes) (result : Fields)
    → Lacks b':' k
    → k ≢ []
    → value ≢ []
    → Modern.header_line (k ++ (field_separator ++ value)) result ≡ emplace k value result
modern_line k value result lk ke ve =
    let found =
      find-Lacks b':' (b' ' ∷ []) k (field_separator ++ value) lk (unfold starts in refl) in
    unfold Modern.header_line in
    rw (found, Modern.header_line)
      (rw (drop_past k field_separator value, take-append, positive k ke, not_null value ve) refl)

-- In the build for C++11 a line without a second separator gives its two parts.
legacy_parts :
    (k v : Bytes)
    → Lacks b':' k
    → Lacks b':' v
    → let line = k ++ (field_separator ++ v) in
      rsplit line (length line) field_separator [] ≡ v ∷ k ∷ []
legacy_parts k v lk lv =
    let line = k ++ (field_separator ++ v) in
    rsplit_line k field_separator v (last_separator k v lv)
    ∙ go (length line) (Bool-cases (ltb (length k) 2))
  where
    go :
        (f : ℕ)
        → ((ltb (length k) 2 ≡ true) ⊎ (ltb (length k) 2 ≡ false))
        → (if ltb (length k) 2
            then v ∷ k ∷ []
            else rsplit_loop f
                (k ++ (field_separator ++ v))
                (length k - 2)
                field_separator
                (length k)
                (v ∷ []))
          ≡ v ∷ k ∷ []
    go f (inl t) = rw t refl
    go zero (inr t) = rw t (unfold rsplit_loop in rw take-append refl)
    go (suc f) (inr t) = rw t (
        let none_left =
          rfind-none (k ++ (field_separator ++ v)) field_separator (length k - 2) λ j h.
            starts_within b':' (b' ' ∷ []) k (field_separator ++ v) j
              (omega (arith, ltb-false (length k) 2 t)) lk in
        unfold rsplit_loop in rw (none_left, rsplit_loop) (rw take-append refl))

-- A field whose name and value are not empty and hold no colon is read by both builds.
pub header_line_same :
    (k v : Bytes) (result : Fields)
    → Lacks b':' k
    → Lacks b':' v
    → k ≢ []
    → v ≢ []
    → (Modern.header_line (k ++ (field_separator ++ v)) result ≡ emplace k v result)
      × (Legacy.header_line (k ++ (field_separator ++ v)) result ≡ emplace k v result)
header_line_same k v result lk lv ke ve =
    (modern_line k v result lk ke ve, legacy (legacy_parts k v lk lv))
  where
    line : Bytes
    line = k ++ (field_separator ++ v)

    legacy :
        rsplit line (length line) field_separator [] ≡ v ∷ k ∷ []
        → Legacy.header_line line result ≡ emplace k v result
    legacy e =
        unfold Legacy.header_line in
        rw (e, Legacy.header_line) (rw (not_null v ve, not_null k ke) refl)

three_parts :
    (k a b : Bytes)
    → Lacks b':' b
    → let line = (k ++ (field_separator ++ a)) ++ (field_separator ++ b) in
      (p q r : Bytes) × (ws : List Bytes) × (rsplit line (length line) field_separator []
        ≡ p ∷ q ∷ r ∷ ws)
three_parts k a b lb =
    let x = k ++ (field_separator ++ a) in
    let line = x ++ (field_separator ++ b) in
    let x_long : length x ≡ suc (suc (length k + length a)) =
      omega (arith, length-append k (field_separator ++ a)) in
    let long : ltb (length x) 2 ≡ false = ground arith in
    let before : length x - 2 ≡ length k + length a = omega arith in
    let at_k : starts field_separator (drop (length k) line) ≡ true =
      rw (append_assoc k) (starts_separator k (a ++ (field_separator ++ b))) in
    let (pos, found) = rfind-some line field_separator (length k) (length a) at_k in
    let fuel : length line ≡ suc (length line - 1) =
      omega (arith, length-append x (field_separator ++ b)) in
    let (q, r, ws, h) =
      loop_two_parts (length line - 1) line (length x - 2) field_separator (length x) (b ∷ []) pos
        (rw before found) in
    (
      b,
      q,
      r,
      ws,
      rsplit_line x field_separator b (last_separator x b lb)
          ∙ rw long (
              subst
                (λ n.
                  rsplit_loop n line (length x - 2) field_separator (length x) (b ∷ [])
                  ≡ b ∷ q ∷ r ∷ ws)
                (sym fuel) h),
    )

-- A field whose value holds a separator, as in `Referer: see: that`, with a name that is not empty
-- and holds no colon, and no colon behind the last separator, is read by the build for C++23 and
-- dropped by the build for C++11.
pub header_line_dropped :
    (k a b : Bytes) (result : Fields)
    → Lacks b':' k
    → Lacks b':' b
    → k ≢ []
    → let line = k ++ (field_separator ++ (a ++ (field_separator ++ b))) in
      (Modern.header_line line result ≡ emplace k (a ++ (field_separator ++ b)) result)
      × (Legacy.header_line line result ≡ result)
header_line_dropped k a b result lk lb ke = (modern_line k _ result lk ke not_empty, dropped)
  where
    not_empty : a ++ (field_separator ++ b) ≢ []
    not_empty e = absurd (omega (arith, ap length e, length-append a (field_separator ++ b)))

    dropped :
        Legacy.header_line (k ++ (field_separator ++ (a ++ (field_separator ++ b)))) result ≡ result
    dropped =
        let (p, q, r, ws, e) = three_parts k a b lb in
        unfold Legacy.header_line in
        rw (← append_assoc k (field_separator ++ a) (field_separator ++ b))
          (rw (e, Legacy.header_line) refl)
