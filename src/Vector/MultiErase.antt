-- ===== src/Vector/MultiErase.antt =====
-- What the erase of several indices does, and which indices it leaves out.
use http.Base.{
  ℕ, suc, ◌+◌, ◌-◌, ◌≤◌, ◌<◌, ◌≡◌, ◌≢◌, refl, sym, subst, ◌∙◌, ap, true, false, some, List, [], ◌∷◌,
  ◌++◌, append_assoc, length, length-append, length-erase_idx, erase_idx, arith, ltb, leb, ◌==◌,
  ==_iff, Bool-cases, if◌then◌else◌, inl, inr,
}
use http.Vector.{erase_loop, erase}

-- The list without the elements at the ascending indices; its first element has the index `k`.
unfoldable pub keep : {A : Type 0} → ℕ → List ℕ → List A → List A
keep k is [] = []
keep k [] (x ∷ xs) = x ∷ xs
keep k (i ∷ is) (x ∷ xs) =
    let without = keep (suc k) is xs in
    let with_x = x ∷ keep (suc k) (i ∷ is) xs in if i == k then without else with_x

-- Indices in ascending order, from `low` on, within `n` elements.
abbrev pub Ascending : ℕ → ℕ → List ℕ → Type 0
Ascending low n [] = Unit {0}
Ascending low n (i ∷ is) = (low ≤ i) × (i < n) × Ascending (suc i) n is

-- What the test of the loop asks for: the index at position `c` is at most `n - c`.
abbrev pub Passes : ℕ → ℕ → List ℕ → Type 0
Passes c n [] = Unit {0}
Passes c n (i ∷ is) = (i + c ≤ n) × Passes (suc c) n is

erase-here :
    {A : Type 0} (ys : List A) (z : A) (zs : List A)
    → erase_idx (ys ++ z ∷ zs) (length ys) ≡ ys ++ zs
erase-here [] z zs = refl
erase-here (y ∷ ys) z zs = ap (λ r. y ∷ r) (erase-here ys z zs)

weaken : (a b n : ℕ) (is : List ℕ) → a ≤ b → Ascending b n is → Ascending a n is
weaken a b n [] h asc = tt
weaken a b n (i ∷ is) h (low, below, rest) = (omega arith, below, rest)

module _ {A : Type 0} where
  erase_loop-keep :
      (ys zs : List A) (c n : ℕ) (is : List ℕ)
      → n ≡ length ys + length zs + c
      → Ascending (length ys + c) n is
      → Passes c n is
      → erase_loop (ys ++ zs) c is ≡ some (ys ++ keep (length ys + c) is zs)
  unfolding erase_loop keep
  erase_loop-keep ys [] c n [] size asc ok = refl
  erase_loop-keep ys (z ∷ zs) c n [] size asc ok = refl
  erase_loop-keep ys [] c n (i ∷ is) size (low, below, asc) ok = absurd (omega arith)
  erase_loop-keep ys (z ∷ zs) c n (i ∷ is) size (low, below, asc) (ok, oks) =
      let long : length (ys ++ z ∷ zs) ≡ length ys + suc (length zs) = length-append ys (z ∷ zs) in
      elim (Bool-cases (i == length ys + c)) [
        | inl t ↦
            let at : i ≡ length ys + c = (==_iff i (length ys + c)).0 t in
            let inside : leb i (length (ys ++ z ∷ zs)) ≡ true = ground (arith, long) in
            let after : ltb i c ≡ false = ground arith in
            let present : leb (length (ys ++ z ∷ zs)) (i - c) ≡ false = ground (arith, long) in
            let here : i - c ≡ length ys = omega (arith, at) in
            let next : length ys + suc c ≡ suc (length ys + c) = omega arith in
            rw (inside, after, present, t, here, erase-here ys z zs)
              (subst (λ k. erase_loop (ys ++ zs) (suc c) is ≡ some (ys ++ keep k is zs)) next
                (erase_loop-keep ys zs (suc c) n is (omega (arith, size))
                  (weaken _ (suc i) n is (omega (arith, at)) asc) oks))
        | inr t ↦
            let off : i ≢ length ys + c = λ e. absurd (other t e) in
            let snoc : length (ys ++ z ∷ []) + c ≡ suc (length ys + c) =
              omega (arith, length-append ys (z ∷ [])) in
            rw t (
              subst
                (λ k. erase_loop (ys ++ z ∷ zs) c (i ∷ is) ≡ some (ys ++ z ∷ keep k (i ∷ is) zs))
                snoc
                (subst
                  (λ v.
                    erase_loop v c (i ∷ is)
                    ≡ some (ys ++ z ∷ keep (length (ys ++ z ∷ []) + c) (i ∷ is) zs))
                  (append_assoc ys (z ∷ []) zs)
                  (erase_loop-keep (ys ++ z ∷ []) zs c n (i ∷ is) (omega (arith, snoc, size))
                      (omega (arith, off, low, snoc), below, asc) (ok, oks)
                    ∙ ap some (append_assoc ys (z ∷ []) _))))
      ]
    where
      other : (i == length ys + c) ≡ false → i ≢ length ys + c
      other t e = ground arith

  -- The erase at ascending indices of elements, where the index at each position `c` is at most
  -- the number of elements less `c`: it returns the vector without exactly those elements.
  pub erase-keep :
      (xs : List A) (is : List ℕ)
      → Ascending 0 (length xs) is
      → Passes 0 (length xs) is
      → erase xs is ≡ some (keep 0 is xs)
  unfolding erase
  erase-keep xs is asc ok = erase_loop-keep [] xs 0 (length xs) is (omega arith) asc ok

  erase_loop-hit :
      (xs : List A) (c i : ℕ) (is : List ℕ)
      → c ≤ i
      → i ≤ length xs
      → i - c < length xs
      → erase_loop xs c (i ∷ is) ≡ erase_loop (erase_idx xs (i - c)) (suc c) is
  unfolding erase_loop
  erase_loop-hit xs c i is low ok present =
      let inside : leb i (length xs) ≡ true = ground arith in
      let after : ltb i c ≡ false = ground arith in
      let there : leb (length xs) (i - c) ≡ false = ground arith in rw (inside, after, there) refl

  erase_loop-miss :
      (xs : List A) (c i : ℕ) (is : List ℕ)
      → length xs < i
      → erase_loop xs c (i ∷ is) ≡ erase_loop xs c is
  unfolding erase_loop
  erase_loop-miss xs c i is past = let out : leb i (length xs) ≡ false = ground arith in rw out refl

  -- Three ascending indices of elements, the last of them that of the last element: its element is
  -- not erased.
  pub erase-skips :
      (xs : List A) (i j k : ℕ)
      → i < j
      → j < k
      → suc k ≡ length xs
      → erase xs (i ∷ j ∷ k ∷ []) ≡ erase xs (i ∷ j ∷ [])
  unfolding erase
  erase-skips xs i j k ij jk last =
      let one = erase_idx xs (i - 0) in
      let size_one = length-erase_idx xs (i - 0) (omega (arith, last)) in
      let size_two = length-erase_idx one (j - 1) (omega (arith, last, size_one)) in
      let both = λ (is : List ℕ).
        erase_loop-hit xs 0 i (j ∷ is) (omega arith) (omega (arith, last)) (omega (arith, last))
        ∙ erase_loop-hit one 1 j is (omega arith) (omega (arith, last, size_one))
            (omega (arith, last, size_one)) in
      both (k ∷ [])
      ∙ erase_loop-miss (erase_idx one (j - 1)) 2 k [] (omega (arith, last, size_one, size_two))
      ∙ sym (both [])
