-- ===== src/ShmVector/Threads/Room.antt =====
-- The capacity behind the spinlock: it only grows, within the memory.
use http.Base.{
  ℕ, zero, suc, ◌-◌, ◌*◌, ◌%◌, ◌^◌, ◌≤◌, ◌<◌, ◌≡◌, refl, subst, Bool, true, false, Option, none,
  some, arith, ltb, leb, ◌==◌, Bool-cases, inl, inr,
}
use native.Mathlib.Nat.{mul-le-mul_right}
use http.ShmVector.{ShmVector, put, doubled, shift}
use http.ShmVector.Threads.{
  Operation, reserve_of, push_back_of, at_of, size_call, erase_at_of, get_next_call, Section,
  reserve_test, reserve_set, push_test, push_grow, push_construct, push_count, at_test, size_read,
  next_test, erase_test, erase_destroy, shift_copy, shift_destroy, erase_count, leaving, Advance,
  goes, ends, step_locked, entry, is_enough, call, outcome, nothing, IsAdmitted,
}
use http.ShmVector.Threads.Alone.{complete}
use http.ShmVector.{reserve}

-- A vector whose capacity is within a memory of less than 2 ^ 63 bytes.
pub record IsRoomy {T : Type 0} (segment_size : ℕ) (v : ShmVector T) : Type 0 where
  pub segment : v.segment_size_bytes ≡ segment_size
  pub positive : 0 < segment_size
  pub narrow : segment_size < 2 ^ 64
  pub fits : v.capacity * segment_size ≤ v.memory_total_bytes
  pub small : v.memory_total_bytes < 2 ^ 63

doubled-fits :
    (s c t : ℕ)
    → 0 < s
    → s < 2 ^ 64
    → c * s ≤ t
    → t < 2 ^ 63
    → ltb t (doubled c * s % 2 ^ 64) ≡ false
    → (c ≤ doubled c) × (doubled c * s ≤ t)
doubled-fits s c t positive narrow fits small test =
    let one : 1 * c ≤ s * c = mul-le-mul_right c positive in
    elim (Bool-cases (c == 0)) [
      | inl empty ↦
          let one_segment : doubled c ≡ 1 = rw empty refl in
          (ground (arith, empty), rw one_segment (not_over (rw (← one_segment) test)))
      | inr more ↦
          let twice : doubled c ≡ c * 2 = rw more (omega (arith, one, fits, small)) in
          (omega (arith, twice), rw twice (not_over' (rw (← twice) test)))
    ]
  where
    not_over : ltb t (1 * s % 2 ^ 64) ≡ false → 1 * s ≤ t
    not_over h = ground (arith, narrow)

    not_over' : ltb t (c * 2 * s % 2 ^ 64) ≡ false → c * 2 * s ≤ t
    not_over' h =
        let whole : c * 2 * s < 2 ^ 64 = omega (arith, fits, small) in ground (arith, whole)

same_le : {a b : ℕ} → b ≡ a → a ≤ b
same_le h = omega arith

module _ {T : Type 0} (segment_size : ℕ) where
  -- What the locals of a caller say of the capacity.
  abbrev pub Grows : Section T → ShmVector T → Type 0
  Grows (reserve_test n) v = n * segment_size < 2 ^ 64
  Grows (reserve_set n) v = (v.capacity ≤ n) × (n * segment_size ≤ v.memory_total_bytes)
  Grows (push_grow x n) v = (v.capacity ≤ n) × (n * segment_size ≤ v.memory_total_bytes)
  Grows s v = Unit {0}

  abbrev pub GrowsAfter : ShmVector T → Advance T → Type 0
  GrowsAfter v (goes s w) = IsRoomy segment_size w × Grows s w × (w.lock ≡ v.lock)
  GrowsAfter v (ends r w) = IsRoomy segment_size w

  -- Whatever happens to the elements, the size and the lock.
  same-IsRoomy :
      (v : ShmVector T) (size : ℕ) (lock : Bool) (memory : ℕ → Option T)
      → IsRoomy segment_size v
      → IsRoomy segment_size (record v { size = size; lock = lock; memory = memory })
  same-IsRoomy v size lock memory r = record {
    segment = r.segment;
    positive = r.positive;
    narrow = r.narrow;
    fits = r.fits;
    small = r.small;
  }

  grown-IsRoomy :
      (v : ShmVector T) (n : ℕ)
      → IsRoomy segment_size v
      → n * segment_size ≤ v.memory_total_bytes
      → IsRoomy segment_size (record v { capacity = n })
  grown-IsRoomy v n r fits = record {
    segment = r.segment;
    positive = r.positive;
    narrow = r.narrow;
    fits = fits;
    small = r.small;
  }

  reserved-Grows :
      (v : ShmVector T) (n : ℕ)
      → IsRoomy segment_size v
      → n * segment_size < 2 ^ 64
      → leb n v.capacity ≡ false
      → ltb v.memory_total_bytes (n * v.segment_size_bytes % 2 ^ 64) ≡ false
      → (v.capacity ≤ n) × (n * segment_size ≤ v.memory_total_bytes)
  reserved-Grows v n r whole more test =
      let test' = subst (λ b. ltb v.memory_total_bytes (n * b % 2 ^ 64) ≡ false) r.segment test in
      (ground arith, ground (arith, whole, test'))

  pushed-Grows :
      (v : ShmVector T)
      → IsRoomy segment_size v
      → ltb v.memory_total_bytes (doubled v.capacity * v.segment_size_bytes % 2 ^ 64) ≡ false
      → (v.capacity ≤ doubled v.capacity)
        × (doubled v.capacity * segment_size ≤ v.memory_total_bytes)
  pushed-Grows v r test =
      doubled-fits segment_size v.capacity v.memory_total_bytes r.positive r.narrow r.fits r.small (
        subst (λ b. ltb v.memory_total_bytes (doubled v.capacity * b % 2 ^ 64) ≡ false) r.segment
          test)

  -- A step keeps the vector roomy and the locals right; the lock is held until the last step.
  pub step_locked-Grows :
      (s : Section T) (v : ShmVector T)
      → IsRoomy segment_size v
      → Grows s v
      → GrowsAfter v (step_locked s v)
  unfolding step_locked
  step_locked-Grows (reserve_test n) v r g = elim (Bool-cases (leb n v.capacity)) [
    | inl t ↦ rw (t, GrowsAfter) (r, tt, refl)
    | inr t ↦
        rw (t, GrowsAfter)
          (elim (Bool-cases (ltb v.memory_total_bytes (n * v.segment_size_bytes % 2 ^ 64))) [
            | inl u ↦ rw (u, GrowsAfter) (r, tt, refl)
            | inr u ↦ rw (u, GrowsAfter) (r, reserved-Grows v n r g t u, refl)
          ])
  ]
  step_locked-Grows (reserve_set n) v r (more, fits) = (grown-IsRoomy v n r fits, tt, refl)
  step_locked-Grows (push_test x) v r g = elim (Bool-cases (leb v.capacity v.size)) [
    | inl t ↦
        rw (t, GrowsAfter)
          (elim (Bool-cases
            (ltb v.memory_total_bytes (doubled v.capacity * v.segment_size_bytes % 2 ^ 64))) [
              | inl u ↦ rw (u, GrowsAfter) (r, tt, refl)
              | inr u ↦ rw (u, GrowsAfter) (r, pushed-Grows v r u, refl)
            ])
    | inr t ↦ rw (t, GrowsAfter) (r, tt, refl)
  ]
  step_locked-Grows (push_grow x n) v r (more, fits) = (grown-IsRoomy v n r fits, tt, refl)
  step_locked-Grows (push_construct x) v r g = (same-IsRoomy v v.size v.lock _ r, tt, refl)
  step_locked-Grows push_count v r g = (same-IsRoomy v (suc v.size) v.lock v.memory r, tt, refl)
  step_locked-Grows (at_test i) v r g = elim (Bool-cases (leb v.size i)) [
    | inl t ↦ rw (t, GrowsAfter) (r, tt, refl)
    | inr t ↦ rw (t, GrowsAfter) (r, tt, refl)
  ]
  step_locked-Grows size_read v r g = (r, tt, refl)
  step_locked-Grows next_test v r g = elim (Bool-cases (v.size == 0)) [
    | inl t ↦ rw (t, GrowsAfter) (r, tt, refl)
    | inr t ↦ rw (t, GrowsAfter) (r, tt, refl)
  ]
  step_locked-Grows (erase_test i o) v r g = elim (Bool-cases (leb v.size i)) [
    | inl t ↦ rw (t, GrowsAfter) r
    | inr t ↦ rw (t, GrowsAfter) (r, tt, refl)
  ]
  step_locked-Grows (erase_destroy i o) v r g = (same-IsRoomy v v.size v.lock _ r, tt, refl)
  step_locked-Grows (shift_copy i o) v r g = elim (Bool-cases (ltb i (v.size - 1))) [
    | inl t ↦ rw (t, GrowsAfter) (same-IsRoomy v v.size v.lock _ r, tt, refl)
    | inr t ↦ rw (t, GrowsAfter) (r, tt, refl)
  ]
  step_locked-Grows (shift_destroy i o) v r g = (same-IsRoomy v v.size v.lock _ r, tt, refl)
  step_locked-Grows (erase_count o) v r g =
      (same-IsRoomy v (v.size - 1) v.lock v.memory r, tt, refl)
  step_locked-Grows (leaving o) v r g = same-IsRoomy v v.size false v.memory r

  shift-capacity : (n i : ℕ) (v : ShmVector T) → (shift n i v).capacity ≡ v.capacity
  unfolding shift
  shift-capacity zero i v = refl
  shift-capacity (suc n) i v = shift-capacity n (suc i) _

  -- The call does not lower the capacity.
  pub complete-capacity :
      (s : Section T) (v : ShmVector T)
      → IsRoomy segment_size v
      → Grows s v
      → v.capacity ≤ (complete s v).1.capacity
  unfolding complete
  complete-capacity (reserve_test n) v r g = elim (Bool-cases (leb n v.capacity)) [
    | inl t ↦ rw t (omega arith)
    | inr t ↦
        rw t (elim (Bool-cases (ltb v.memory_total_bytes (n * v.segment_size_bytes % 2 ^ 64))) [
          | inl u ↦ rw u (omega arith)
          | inr u ↦ rw u (reserved-Grows v n r g t u).0
        ])
  ]
  complete-capacity (reserve_set n) v r (more, fits) = more
  complete-capacity (push_test x) v r g = elim (Bool-cases (leb v.capacity v.size)) [
    | inl t ↦
        rw t
          (elim (Bool-cases
            (ltb v.memory_total_bytes (doubled v.capacity * v.segment_size_bytes % 2 ^ 64))) [
              | inl u ↦ rw u (omega arith)
              | inr u ↦ rw u (pushed-Grows v r u).0
            ])
    | inr t ↦ rw t (omega arith)
  ]
  complete-capacity (push_grow x n) v r (more, fits) = more
  complete-capacity (push_construct x) v r g = omega arith
  complete-capacity push_count v r g = omega arith
  complete-capacity (at_test i) v r g = elim (Bool-cases (leb v.size i)) [
    | inl t ↦ rw t (omega arith)
    | inr t ↦ rw t (omega arith)
  ]
  complete-capacity size_read v r g = omega arith
  complete-capacity next_test v r g = elim (Bool-cases (v.size == 0)) [
    | inl t ↦ rw t (omega arith)
    | inr t ↦ rw t (elim (Bool-cases (leb v.size 0)) [
      | inl u ↦ rw u (omega arith)
      | inr u ↦ rw u (same_le (shift-capacity (v.size - 1 - 0) 0 (put v 0 none)))
    ])
  ]
  complete-capacity (erase_test i o) v r g = elim (Bool-cases (leb v.size i)) [
    | inl t ↦ rw t (omega arith)
    | inr t ↦ rw t (same_le (shift-capacity (v.size - 1 - i) i (put v i none)))
  ]
  complete-capacity (erase_destroy i o) v r g =
      same_le (shift-capacity (v.size - 1 - i) i (put v i none))
  complete-capacity (shift_copy i o) v r g = same_le (shift-capacity (v.size - 1 - i) i v)
  complete-capacity (shift_destroy i o) v r g =
      same_le (shift-capacity (v.size - 1 - suc i) (suc i) (put v (suc i) none))
  complete-capacity (erase_count o) v r g = omega arith
  complete-capacity (leaving o) v r g = omega arith

-- `reserve` for no more than the capacity returns at once.
pub call-is_enough :
    {T : Type 0} (op : Operation T) (v w : ShmVector T)
    → is_enough op v ≡ true
    → v.capacity ≤ w.capacity
    → call op w ≡ some (nothing, w)
unfolding is_enough call outcome reserve
call-is_enough (reserve_of n) v w enough more =
    let here : leb n w.capacity ≡ true = ground arith in rw here refl
call-is_enough (push_back_of x) v w enough more = absurd cc
call-is_enough (at_of i) v w enough more = absurd cc
call-is_enough size_call v w enough more = absurd cc
call-is_enough (erase_at_of i) v w enough more = absurd cc
call-is_enough get_next_call v w enough more = absurd cc

pub entry-Grows :
    {T : Type 0} (segment_size : ℕ) (op : Operation T) (v : ShmVector T)
    → IsAdmitted segment_size op
    → Grows segment_size (entry op) v
unfolding entry
entry-Grows s (reserve_of n) v a = a
entry-Grows s (push_back_of x) v a = tt
entry-Grows s (at_of i) v a = tt
entry-Grows s size_call v a = tt
entry-Grows s (erase_at_of i) v a = tt
entry-Grows s get_next_call v a = tt
