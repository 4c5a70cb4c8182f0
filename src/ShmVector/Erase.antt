-- ===== src/ShmVector/Erase.antt =====
-- `eraseAt` and `getNextElement` against the list of the elements.
use http.Base.{
  get_elem-erase_below, get_elem-erase_above, length-erase_idx, ℕ, zero, suc, ◌-◌, ◌≤◌, ◌<◌, ◌≡◌,
  refl, sym, ◌∙◌, inl, inr, false, Option, none, some, List, ◌∷◌, erase_idx, arith, ltb, leb, ◌==◌,
  ltb→lt, ltb-false, Bool-cases,
}
use http.ShmVector.{
  ShmVector, returned, get_element_ptr, read, put, acquired, shift, erase_at_unlocked, erase_at,
  get_next_locked, get_next_element,
}
use http.ShmVector.Layout.{IsSound-Spread, write_miss, shift_below, shift_within}
use http.ShmVector.Contents.{Holds}

module _ {T : Type 0} where
  shift_shape :
      (n i : ℕ) (v : ShmVector T) → shift n i v ≡ record v { memory = (shift n i v).memory }
  unfolding shift
  shift_shape zero i v = refl
  shift_shape (suc n) i v =
      shift_shape n (suc i) (put (put v i (read v (get_element_ptr v (suc i)))) (suc i) none)

  abbrev erased : ShmVector T → (ℕ → Option T) → ShmVector T
  erased v m = record v { memory = m; size = v.size - 1; lock = false }

  -- The memory after `eraseAt_unlocked`.
  abbrev erased_memory : ShmVector T → ℕ → (ℕ → Option T)
  erased_memory v i = (shift (v.size - 1 - i) i (put (acquired v) i none)).memory

  erased-Holds :
      (v : ShmVector T) (xs : List T) (i : ℕ)
      → Holds v xs
      → i < v.size
      → Holds (erased v (erased_memory v i)) (erase_idx xs i)
  erased-Holds v xs i h inside =
      let w = put (acquired v) i none in
      let spread = IsSound-Spread v h.sound in
      let room = h.sound.within in
      let len = h.length_is in
      record {
        sound = record {
          positive = h.sound.positive;
          within = omega (arith, room);
          fits = h.sound.fits;
          not_null = h.sound.not_null;
          no_wrap = h.sound.no_wrap;
        };
        free = refl;
        length_is = omega (arith, len, length-erase_idx xs i (omega (arith, len)));
        cells = λ k hk. elim (Bool-cases (ltb k i)) [
          | inl t ↦
              let lt : k < i = ltb→lt k i t in
              shift_below (v.size - 1 - i) i v.capacity k w spread (omega (arith, room)) lt
              ∙ write_miss _ _ none v.memory (
                  spread k i (omega (arith, room)) (omega (arith, room))
                    (λ e. absurd (omega arith)))
              ∙ h.cells k (omega arith)
              ∙ sym (get_elem-erase_below xs i k lt)
          | inr t ↦
              let ge : i ≤ k = ltb-false k i t in
              shift_within (v.size - 1 - i) i v.capacity k w spread (omega (arith, room)) ge
                (omega arith)
              ∙ write_miss _ _ none v.memory (
                  spread (suc k) i (omega (arith, room)) (omega (arith, room))
                    (λ e. absurd (omega arith)))
              ∙ h.cells (suc k) (omega arith)
              ∙ sym (get_elem-erase_above xs i k ge)
        ];
      }

  -- `eraseAt` on a free vector, with an index of an element, returns, and exactly that element is
  -- gone.
  pub erase_at-Holds :
      (v : ShmVector T) (xs : List T) (i : ℕ)
      → Holds v xs
      → i < v.size
      → (w : ShmVector T) × (erase_at v i ≡ returned tt w) × Holds w (erase_idx xs i)
  unfolding erase_at erase_at_unlocked
  erase_at-Holds v xs i h inside = (
    erased v (erased_memory v i),
    (let bound : leb v.size i ≡ false = ground arith in
        rw (h.free, bound, shift_shape (v.size - 1 - i) i (put (acquired v) i none)) refl),
    erased-Holds v xs i h inside,
  )

  -- `getNextElement` on a free vector that is not empty returns its first element and removes it.
  pub get_next_element-Holds :
      (v : ShmVector T) (x : T) (xs : List T)
      → Holds v (x ∷ xs)
      → (w : ShmVector T) × (get_next_element v ≡ returned (some x) w) × Holds w xs
  unfolding get_next_element get_next_locked erase_at_unlocked
  get_next_element-Holds v x xs h = (
    erased v (erased_memory v 0),
    (let some_left : v.size == 0 ≡ false = ground (arith, h.length_is) in
        let bound : leb v.size 0 ≡ false = ground (arith, h.length_is) in
        rw
          (
            h.free,
            some_left,
            bound,
            h.cells 0 (omega (arith, h.length_is)),
            shift_shape (v.size - 1 - 0) 0 (put (acquired v) 0 none),
          )
          refl),
    erased-Holds v (x ∷ xs) 0 h (omega (arith, h.length_is)),
  )
