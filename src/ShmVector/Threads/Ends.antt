-- ===== src/ShmVector/Threads/Ends.antt =====
-- How many steps a caller behind the spinlock has left.
use http.Base.{
  ℕ, zero, suc, ◌+◌, ◌-◌, ◌*◌, ◌%◌, ◌^◌, ◌≤◌, ◌≡◌, refl, sym, ◌∙◌, ap, false, Option, none, some,
  arith, ltb, leb, ◌==◌, Bool-cases, inl, inr,
}
use http.ShmVector.{ShmVector, acquired, doubled}
use http.ShmVector.Threads.{
  Operation, entry, call, Value, Section, reserve_test, reserve_set, push_test, push_grow,
  push_construct, push_count, at_test, size_read, next_test, erase_test, erase_destroy, shift_copy,
  shift_destroy, erase_count, leaving, Advance, goes, ends, step_locked,
}
use http.ShmVector.Threads.Alone.{call-complete, complete, complete_after, complete-step_locked}

module _ {T : Type 0} where
  -- At most so many steps.
  unfoldable pub steps_left : Section T → ShmVector T → ℕ
  steps_left (reserve_test n) v = 3
  steps_left (reserve_set n) v = 2
  steps_left (push_test x) v = 5
  steps_left (push_grow x n) v = 4
  steps_left (push_construct x) v = 3
  steps_left push_count v = 2
  steps_left (at_test i) v = 2
  steps_left size_read v = 2
  steps_left next_test v = 6 + 2 * (v.size - 1)
  steps_left (erase_test i r) v = 5 + 2 * (v.size - 1 - i)
  steps_left (erase_destroy i r) v = 4 + 2 * (v.size - 1 - i)
  steps_left (shift_copy i r) v = 3 + 2 * (v.size - 1 - i)
  steps_left (shift_destroy i r) v = 4 + 2 * (v.size - 1 - suc i)
  steps_left (erase_count r) v = 2
  steps_left (leaving r) v = 1

  -- The steps of one caller, at most so many.
  unfoldable pub run : ℕ → Section T → ShmVector T → Option (Value T × ShmVector T)
  unfolding step_locked
  run zero s v = none
  run (suc n) s v = elim (step_locked s v) [ goes s' w ↦ run n s' w | ends r w ↦ some (r, w) ]

  abbrev Fewer : ℕ → Advance T → Type 0
  Fewer n (goes s v) = suc (steps_left s v) ≤ n
  Fewer n (ends r v) = 1 ≤ n

  step_locked-Fewer : (s : Section T) (v : ShmVector T) → Fewer (steps_left s v) (step_locked s v)
  unfolding step_locked steps_left
  step_locked-Fewer (reserve_test n) v = elim (Bool-cases (leb n v.capacity)) [
    | inl t ↦ rw (t, Fewer) (omega arith)
    | inr t ↦
        rw (t, Fewer)
          (elim (Bool-cases (ltb v.memory_total_bytes (n * v.segment_size_bytes % 2 ^ 64))) [
            | inl u ↦ rw (u, Fewer) (omega arith)
            | inr u ↦ rw (u, Fewer) (omega arith)
          ])
  ]
  step_locked-Fewer (reserve_set n) v = omega arith
  step_locked-Fewer (push_test x) v = elim (Bool-cases (leb v.capacity v.size)) [
    | inl t ↦
        rw (t, Fewer)
          (elim (Bool-cases
            (ltb v.memory_total_bytes (doubled v.capacity * v.segment_size_bytes % 2 ^ 64))) [
              | inl u ↦ rw (u, Fewer) (omega arith)
              | inr u ↦ rw (u, Fewer) (omega arith)
            ])
    | inr t ↦ rw (t, Fewer) (omega arith)
  ]
  step_locked-Fewer (push_grow x n) v = omega arith
  step_locked-Fewer (push_construct x) v = omega arith
  step_locked-Fewer push_count v = omega arith
  step_locked-Fewer (at_test i) v = elim (Bool-cases (leb v.size i)) [
    | inl t ↦ rw (t, Fewer) (omega arith)
    | inr t ↦ rw (t, Fewer) (omega arith)
  ]
  step_locked-Fewer size_read v = omega arith
  step_locked-Fewer next_test v = elim (Bool-cases (v.size == 0)) [
    | inl t ↦ rw (t, Fewer) (omega arith)
    | inr t ↦ rw (t, Fewer) (omega arith)
  ]
  step_locked-Fewer (erase_test i r) v = elim (Bool-cases (leb v.size i)) [
    | inl t ↦ rw (t, Fewer) (omega arith)
    | inr t ↦ rw (t, Fewer) (omega arith)
  ]
  step_locked-Fewer (erase_destroy i r) v = omega arith
  step_locked-Fewer (shift_copy i r) v = elim (Bool-cases (ltb i (v.size - 1))) [
    | inl t ↦ rw (t, Fewer) (ground arith)
    | inr t ↦ rw (t, Fewer) (omega arith)
  ]
  step_locked-Fewer (shift_destroy i r) v = omega arith
  step_locked-Fewer (erase_count r) v = omega arith
  step_locked-Fewer (leaving r) v = omega arith

  Fewer-some : (n : ℕ) (a : Advance T) → Fewer n a → 1 ≤ n
  Fewer-some n (goes s v) h = omega (arith, h)
  Fewer-some n (ends r v) h = h

  run-step_locked :
      (n : ℕ) (s : Section T) (v : ShmVector T) (a : Advance T)
      → step_locked s v ≡ a
      → Fewer (suc n) a
      → ((t : Section T) (w : ShmVector T) → steps_left t w ≤ n → run n t w ≡ some (complete t w))
      → run (suc n) s v ≡ some (complete_after a)
  unfolding run
  run-step_locked n s v (goes t w) step fewer ends_there =
      rw (step, run) (ends_there t w (omega (arith, fewer)))
  run-step_locked n s v (ends r w) step fewer ends_there = rw (step, run) refl

  Fewer-more : (m n : ℕ) (a : Advance T) → m ≤ n → Fewer m a → Fewer n a
  Fewer-more m n (goes s v) le h = omega (arith, h)
  Fewer-more m n (ends r v) le h = omega (arith, h)

  pub run-complete :
      (n : ℕ) (s : Section T) (v : ShmVector T)
      → steps_left s v ≤ n
      → run n s v ≡ some (complete s v)
  run-complete zero s v h =
      let more = Fewer-some (steps_left s v) (step_locked s v) (step_locked-Fewer s v) in
      absurd (omega arith)
  run-complete (suc n) s v h =
      run-step_locked n s v (step_locked s v) refl
        (Fewer-more (steps_left s v) (suc n) (step_locked s v) h (step_locked-Fewer s v))
        (λ t w le. run-complete n t w le)
      ∙ ap some (complete-step_locked s v)

  -- Behind the free spinlock of a vector, the steps of a caller that nobody else disturbs end within
  -- the number that `steps_left` gives, with the value and the vector of the whole call.
  pub run-call :
      (op : Operation T) (v : ShmVector T) (n : ℕ)
      → v.lock ≡ false
      → steps_left (entry op) (acquired v) ≤ n
      → run n (entry op) (acquired v) ≡ call op v
  run-call op v n free le =
      run-complete n (entry op) (acquired v) le ∙ sym (call-complete op v free)
