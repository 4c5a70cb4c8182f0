-- ===== src/ShmVector/Contents.antt =====
-- A vector in shared memory against a list of its elements.
use http.Base.{
  get_elem-append_left, get_elem-append_here, ℕ, ◌+◌, ◌*◌, ◌%◌, ◌^◌, ◌≤◌, ◌<◌, ◌≡◌, ◌≢◌, refl, sym,
  subst, ◌∙◌, ◌⊎◌, inl, inr, false, some, List, [], ◌∷◌, ◌++◌, length, length-append, get_elem?,
  arith, ltb, leb, leb→le, ◌==◌, ==_iff, if◌then◌else◌, Bool-cases,
}
use native.Mathlib.Nat.{mul-le-mul_right}
use http.ShmVector.{
  ShmVector, returned, thrown, get_element_ptr, bad_alloc, out_of_range, reserve, reserve_locked,
  doubled, placed, push_back_locked, push_back, at,
}
use http.ShmVector.Layout.{IsSound, IsSound-Spread, write_hit, write_miss}

-- A sound vector with a free lock whose elements are those of the list.
pub record Holds {T : Type 0} (v : ShmVector T) (xs : List T) : Type 0 where
  pub sound : IsSound v
  pub free : v.lock ≡ false
  pub length_is : length xs ≡ v.size
  pub cells : (i : ℕ) → i < v.size → v.memory (get_element_ptr v i) ≡ get_elem? xs i

-- The capacity that `push_back` grows to, before it wraps.
abbrev pub grown : ℕ → ℕ
grown capacity = if capacity == 0 then 1 else capacity * 2

doubled-grown :
    (c s t b : ℕ)
    → 0 < s
    → grown c * s ≤ t
    → b + t ≤ 2 ^ 64
    → 0 < b
    → (doubled c ≡ grown c) × (grown c * s < 2 ^ 64)
doubled-grown c s t b positive fits room not_null =
    let one : 1 * grown c ≤ s * grown c = mul-le-mul_right (grown c) positive in
    (ground (arith, one), omega arith)

room_test : (g t : ℕ) → g < 2 ^ 64 → g ≤ t → ltb t (g % 2 ^ 64) ≡ false
room_test g t small fits = ground arith

grows : (c n : ℕ) → n ≤ c → n < grown c
grows c n h = ground arith

module _ {T : Type 0} where
  -- A new element in the slot behind the last one.
  placed-Holds :
      (v : ShmVector T) (xs : List T) (x : T)
      → IsSound v
      → length xs ≡ v.size
      → ((i : ℕ) → i < v.size → v.memory (get_element_ptr v i) ≡ get_elem? xs i)
      → v.size < v.capacity
      → Holds (placed v x) (xs ++ x ∷ [])
  placed-Holds v xs x s len cells room = record {
    sound = record {
      positive = s.positive;
      within = omega arith;
      fits = s.fits;
      not_null = s.not_null;
      no_wrap = s.no_wrap;
    };
    free = refl;
    length_is = omega (arith, length-append xs (x ∷ []));
    cells = λ i h. elim (Bool-cases (i == v.size)) [
      | inl t ↦
          let e : i ≡ v.size = (==_iff i v.size).0 t in
          rw (e, write_hit (get_element_ptr v v.size) (some x) v.memory)
            (subst (λ n. some x ≡ get_elem? (xs ++ x ∷ []) n) len (sym (get_elem-append_here xs x)))
      | inr t ↦
          let ne : i ≢ v.size = λ e. absurd (different t e) in
          let below : i < v.size = omega (arith, ne, h) in
          write_miss _ _ (some x) v.memory (IsSound-Spread v s i v.size (omega arith) room ne)
          ∙ cells i below
          ∙ sym (get_elem-append_left xs (x ∷ []) i (omega arith))
    ];
  }
    where
      different : {i : ℕ} → (i == v.size) ≡ false → i ≢ v.size
      different t e = ground arith

  -- `push_back` on a free vector, where memory has room for the grown capacity if no slot is free:
  -- it returns, and the element is behind the others.
  pub push_back-Holds :
      (v : ShmVector T) (xs : List T) (x : T)
      → Holds v xs
      → (v.capacity ≤ v.size → grown v.capacity * v.segment_size_bytes ≤ v.memory_total_bytes)
      → (w : ShmVector T) × (push_back v x ≡ returned tt w) × Holds w (xs ++ x ∷ [])
  unfolding push_back push_back_locked
  push_back-Holds v xs x h room = elim (Bool-cases (leb v.capacity v.size)) [
    | inr free ↦ (
      placed v x,
      rw (h.free, free) refl,
      placed-Holds v xs x h.sound h.length_is h.cells (ground arith),
    )
    | inl full ↦
        let s = h.sound in
        let fits = room (leb→le _ _ full) in
        let (same, small) =
          doubled-grown v.capacity v.segment_size_bytes v.memory_total_bytes v.memory_base
            s.positive fits s.no_wrap s.not_null in
        let w = record v { capacity = grown v.capacity } in
        let enough : ltb v.memory_total_bytes (grown v.capacity * v.segment_size_bytes % 2 ^ 64)
            ≡ false =
          room_test _ _ small fits in
        let more : v.size < grown v.capacity = grows v.capacity v.size s.within in
        (
          placed w x,
          rw (h.free, full, same, enough) refl,
          placed-Holds w xs x
              (record {
                positive = s.positive;
                within = omega (arith, more);
                fits = fits;
                not_null = s.not_null;
                no_wrap = s.no_wrap;
              })
              h.length_is h.cells more,
        )
  ]

  -- `reserve` on a free vector for a size in bytes below 2 ^ 64: it throws `bad_alloc` exactly if
  -- there is no capacity and no memory for that many elements, and the vector stays as it is;
  -- otherwise it returns, and the elements stay and there is capacity for that many.
  pub reserve-Holds :
      (v : ShmVector T) (xs : List T) (n : ℕ)
      → Holds v xs
      → n * v.segment_size_bytes < 2 ^ 64
      → ((v.capacity < n)
          × (v.memory_total_bytes < n * v.segment_size_bytes)
          × (reserve v n ≡ thrown bad_alloc v))
        ⊎ ((w : ShmVector T) × (reserve v n ≡ returned tt w) × Holds w xs × (n ≤ w.capacity))
  unfolding reserve reserve_locked
  reserve-Holds v xs n h small = elim (Bool-cases (leb n v.capacity)) [
    | inl t ↦ inr (v, rw t refl, h, leb→le _ _ t)
    | inr t ↦ elim (Bool-cases (ltb v.memory_total_bytes (n * v.segment_size_bytes % 2 ^ 64))) [
      | inl over ↦ inl (ground arith, ground (arith, small), rw (t, h.free, over) refl)
      | inr room ↦ inr (
        record v { capacity = n; lock = false },
        rw (t, h.free, room) refl,
        record {
          sound = record {
            positive = h.sound.positive;
            within = ground (arith, h.sound.within);
            fits = ground (arith, small);
            not_null = h.sound.not_null;
            no_wrap = h.sound.no_wrap;
          };
          free = refl;
          length_is = h.length_is;
          cells = h.cells;
        },
        omega arith,
      )
    ]
  ]

  -- `at` on a free vector returns the address where the element of that index stands, or throws
  -- `out_of_range` where there is no such element; either way the vector is as before.
  pub at-Holds :
      (v : ShmVector T) (xs : List T) (i : ℕ)
      → Holds v xs
      → ((i < length xs) × ((a : ℕ) × (at v i ≡ returned a v) × (v.memory a ≡ get_elem? xs i)))
        ⊎ ((length xs ≤ i) × (at v i ≡ thrown out_of_range v))
  unfolding at
  at-Holds v xs i h =
      let len = h.length_is in
      elim (Bool-cases (leb v.size i)) [
        | inl past ↦ inr (ground (arith, len), rw (h.free, past) refl)
        | inr inside ↦ inl (
          ground (arith, len),
          (get_element_ptr v i, rw (h.free, inside) refl, h.cells i (ground arith)),
        )
      ]
