-- ===== src/ShmVector/Threads/Alone.antt =====
-- What a caller behind the spinlock comes to if it runs alone from where it stands, and that its
-- steps do not change that.
use http.Base.{
  ℕ, suc, ◌-◌, ◌*◌, ◌%◌, ◌^◌, ◌≡◌, refl, sym, ap, true, false, none, some, arith, ltb, leb, ◌==◌,
  if◌then◌else◌, Bool-cases, inl, inr,
}
use http.ShmVector.{
  ShmVector, bad_alloc, out_of_range, get_element_ptr, read, put, acquired, released, doubled,
  placed, reserve, reserve_locked, push_back, push_back_locked, at, size_of, erase_at,
  erase_at_unlocked, get_next_element, get_next_locked, shift,
}
use http.ShmVector.Threads.{
  Operation, reserve_of, push_back_of, at_of, size_call, erase_at_of, get_next_call, Value, nothing,
  reference, count, element, threw, Section, reserve_test, reserve_set, push_test, push_grow,
  push_construct, push_count, at_test, size_read, next_test, erase_test, erase_destroy, shift_copy,
  shift_destroy, erase_count, leaving, Advance, goes, ends, step_locked, entry, outcome, call,
}

module _ {T : Type 0} where
  abbrev shrunk : ShmVector T → ShmVector T
  shrunk v = record v { size = v.size - 1 }

  -- The value and the vector at the end of the call.
  unfoldable pub complete : Section T → ShmVector T → Value T × ShmVector T
  unfolding shift
  complete (reserve_test n) v =
      if leb n v.capacity
      then (nothing, released v)
      else if ltb v.memory_total_bytes (n * v.segment_size_bytes % 2 ^ 64)
      then (threw bad_alloc, released v)
      else (nothing, released (record v { capacity = n }))
  complete (reserve_set n) v = (nothing, released (record v { capacity = n }))
  complete (push_test x) v =
      if leb v.capacity v.size
      then (if ltb v.memory_total_bytes (doubled v.capacity * v.segment_size_bytes % 2 ^ 64)
          then (threw bad_alloc, released v)
          else (nothing, placed (record v { capacity = doubled v.capacity }) x))
      else (nothing, placed v x)
  complete (push_grow x n) v = (nothing, placed (record v { capacity = n }) x)
  complete (push_construct x) v = (nothing, placed v x)
  complete push_count v = (nothing, released (record v { size = suc v.size }))
  complete (at_test i) v =
      if leb v.size i
      then (threw out_of_range, released v)
      else (reference (get_element_ptr v i), released v)
  complete size_read v = (count v.size, released v)
  complete next_test v =
      if v.size == 0
      then (threw out_of_range, released v)
      else if leb v.size 0
      then (threw out_of_range, v)
      else (
        element (read v (get_element_ptr v 0)),
        released (shrunk (shift (v.size - 1 - 0) 0 (put v 0 none))),
      )
  complete (erase_test i r) v =
      if leb v.size i
      then (threw out_of_range, v)
      else (r, released (shrunk (shift (v.size - 1 - i) i (put v i none))))
  complete (erase_destroy i r) v = (r, released (shrunk (shift (v.size - 1 - i) i (put v i none))))
  complete (shift_copy i r) v = (r, released (shrunk (shift (v.size - 1 - i) i v)))
  complete (shift_destroy i r) v =
      (r, released (shrunk (shift (v.size - 1 - suc i) (suc i) (put v (suc i) none))))
  complete (erase_count r) v = (r, released (shrunk v))
  complete (leaving r) v = (r, released v)

  -- The end of the call from where a step leads.
  abbrev pub complete_after : Advance T → Value T × ShmVector T
  complete_after (goes s v) = complete s v
  complete_after (ends r v) = (r, v)

  shift_ends :
      (i : ℕ) (v : ShmVector T) → ltb i (v.size - 1) ≡ false → shift (v.size - 1 - i) i v ≡ v
  unfolding shift
  shift_ends i v h =
      let none_left : v.size - 1 - i ≡ 0 = ground arith in ap (λ n. shift n i v) none_left

  shift_goes :
      (i : ℕ) (v : ShmVector T)
      → ltb i (v.size - 1) ≡ true
      → shift
          (v.size - 1 - suc i)
          (suc i)
          (put (put v i (read v (get_element_ptr v (suc i)))) (suc i) none)
        ≡ shift (v.size - 1 - i) i v
  unfolding shift
  shift_goes i v h =
      let one_more : suc (v.size - 1 - suc i) ≡ v.size - 1 - i = ground arith in
      ap (λ n. shift n i v) one_more

  -- A step does not change what the call comes to.
  pub complete-step_locked :
      (s : Section T) (v : ShmVector T) → complete_after (step_locked s v) ≡ complete s v
  unfolding step_locked complete
  complete-step_locked (reserve_test n) v = elim (Bool-cases (leb n v.capacity)) [
    | inl t ↦ rw t refl
    | inr t ↦
        rw t (elim (Bool-cases (ltb v.memory_total_bytes (n * v.segment_size_bytes % 2 ^ 64))) [
          | inl u ↦ rw u refl
          | inr u ↦ rw u refl
        ])
  ]
  complete-step_locked (reserve_set n) v = refl
  complete-step_locked (push_test x) v = elim (Bool-cases (leb v.capacity v.size)) [
    | inl t ↦
        rw t
          (elim (Bool-cases
            (ltb v.memory_total_bytes (doubled v.capacity * v.segment_size_bytes % 2 ^ 64))) [
              | inl u ↦ rw u refl
              | inr u ↦ rw u refl
            ])
    | inr t ↦ rw t refl
  ]
  complete-step_locked (push_grow x n) v = refl
  complete-step_locked (push_construct x) v = refl
  complete-step_locked push_count v = refl
  complete-step_locked (at_test i) v = elim (Bool-cases (leb v.size i)) [
    | inl t ↦ rw t refl
    | inr t ↦ rw t refl
  ]
  complete-step_locked size_read v = refl
  complete-step_locked next_test v = elim (Bool-cases (v.size == 0)) [
    | inl t ↦ rw t refl
    | inr t ↦ rw t refl
  ]
  complete-step_locked (erase_test i r) v = elim (Bool-cases (leb v.size i)) [
    | inl t ↦ rw t refl
    | inr t ↦ rw t refl
  ]
  complete-step_locked (erase_destroy i r) v = refl
  complete-step_locked (shift_copy i r) v = elim (Bool-cases (ltb i (v.size - 1))) [
    | inl t ↦ rw t (ap (λ w. (r, released (shrunk w))) (shift_goes i v t))
    | inr t ↦ rw t (ap (λ w. (r, released (shrunk w))) (sym (shift_ends i v t)))
  ]
  complete-step_locked (shift_destroy i r) v = refl
  complete-step_locked (erase_count r) v = refl
  complete-step_locked (leaving r) v = refl

  -- The whole call, from the acquired lock on, is the call that runs alone.
  pub call-complete :
      (op : Operation T) (v : ShmVector T)
      → v.lock ≡ false
      → call op v ≡ some (complete (entry op) (acquired v))
  unfolding call entry outcome complete reserve reserve_locked push_back push_back_locked at size_of
      erase_at erase_at_unlocked get_next_element get_next_locked
  call-complete (reserve_of n) v free = elim (Bool-cases (leb n v.capacity)) [
    | inl t ↦ rw t (ap (λ b. some (nothing, record v { lock = b })) free)
    | inr t ↦
        rw (t, free)
          (elim (Bool-cases (ltb v.memory_total_bytes (n * v.segment_size_bytes % 2 ^ 64))) [
            | inl u ↦ rw u refl
            | inr u ↦ rw u refl
          ])
  ]
  call-complete (push_back_of x) v free = rw free (elim (Bool-cases (leb v.capacity v.size)) [
    | inl t ↦
        rw t
          (elim (Bool-cases
            (ltb v.memory_total_bytes (doubled v.capacity * v.segment_size_bytes % 2 ^ 64))) [
              | inl u ↦ rw u refl
              | inr u ↦ rw u refl
            ])
    | inr t ↦ rw t refl
  ])
  call-complete (at_of i) v free =
      rw free (elim (Bool-cases (leb v.size i)) [ inl t ↦ rw t refl | inr t ↦ rw t refl ])
  call-complete size_call v free = rw free refl
  call-complete (erase_at_of i) v free =
      rw free (elim (Bool-cases (leb v.size i)) [ inl t ↦ rw t refl | inr t ↦ rw t refl ])
  call-complete get_next_call v free = rw free (elim (Bool-cases (v.size == 0)) [
    | inl t ↦ rw t refl
    | inr t ↦ rw t (elim (Bool-cases (leb v.size 0)) [ inl u ↦ rw u refl | inr u ↦ rw u refl ])
  ])
