-- ===== src/ShmVector/Layout.antt =====
-- Where the elements of a vector stand: their addresses differ, and what a write and the loop of
-- `eraseAt_unlocked` do to each of them.
use http.Base.{
  ℕ, zero, suc, ◌+◌, ◌*◌, ◌%◌, ◌^◌, ◌≤◌, ◌<◌, ◌≡◌, ◌≢◌, refl, ◌∙◌, subst, inl, inr, false, Option,
  none, arith, ltb, ◌==◌, Bool-cases, ==_iff, ==_refl, ltb→lt, ltb-false,
}
use http.ShmVector.{ShmVector, get_element_ptr, read, write, put, shift}
use native.Mathlib.Nat.{mul-le-mul_right}

-- The geometry of a vector whose slots stand one behind the other within its memory.
pub record IsSound {T : Type 0} (v : ShmVector T) : Type 0 where
  pub positive : 0 < v.segment_size_bytes
  pub within : v.size ≤ v.capacity
  pub fits : v.capacity * v.segment_size_bytes ≤ v.memory_total_bytes
  pub not_null : 0 < v.memory_base
  pub no_wrap : v.memory_base + v.memory_total_bytes ≤ 2 ^ 64

-- The first `m` slots have different addresses.
abbrev pub Spread : {T : Type 0} → ShmVector T → ℕ → Type 0
Spread v m = (i j : ℕ) → i < m → j < m → i ≢ j → get_element_ptr v i ≢ get_element_ptr v j

slots_apart :
    (b s t i j m : ℕ)
    → 0 < s
    → m * s ≤ t
    → b + t ≤ 2 ^ 64
    → i < j
    → j < m
    → (b + i * s) % 2 ^ 64 < (b + j * s) % 2 ^ 64
slots_apart b s t i j m positive fits room lt top =
    let one : suc i * s ≤ j * s = mul-le-mul_right s lt in
    let two : suc j * s ≤ m * s = mul-le-mul_right s top in omega (arith, one, two)

pub IsSound-Spread : {T : Type 0} (v : ShmVector T) → IsSound v → Spread v v.capacity
IsSound-Spread v s i j hi hj ne e = elim (Bool-cases (ltb i j)) [
  | inl t ↦
      let lt = ltb→lt i j t in
      absurd (omega (arith, e, slots_apart _ _ _ i j _ s.positive s.fits s.no_wrap lt hj))
  | inr t ↦
      let lt : j < i = omega (arith, ne, ltb-false i j t) in
      absurd (omega (arith, e, slots_apart _ _ _ j i _ s.positive s.fits s.no_wrap lt hi))
]

pub write_hit : {T : Type 0} (a : ℕ) (o : Option T) (m : ℕ → Option T) → write a o m a ≡ o
unfolding write
write_hit a o m = rw (==_refl a) refl

pub write_miss :
    {T : Type 0} (a b : ℕ) (o : Option T) (m : ℕ → Option T) → b ≢ a → write a o m b ≡ m b
unfolding write
write_miss a b o m ne = elim (Bool-cases (b == a)) [
  | inl t ↦ absurd (ne ((==_iff b a).0 t))
  | inr t ↦ rw t refl
]

module _ {T : Type 0} where
  -- The slots before the first round stay.
  pub shift_below :
      (n i m k : ℕ) (v : ShmVector T)
      → Spread v m
      → i + n < m
      → k < i
      → (shift n i v).memory (get_element_ptr v k) ≡ v.memory (get_element_ptr v k)
  unfolding shift
  shift_below zero i m k v apart room lt = refl
  shift_below (suc n) i m k v apart room lt =
      let moved = put v i (read v (get_element_ptr v (suc i))) in
      shift_below n (suc i) m k (put moved (suc i) none) apart (omega arith) (omega arith)
      ∙ write_miss _ _ none moved.memory
          (apart k (suc i) (omega arith) (omega arith) (λ e. absurd (omega arith)))
      ∙ write_miss _ _ _ v.memory
          (apart k i (omega arith) (omega arith) (λ e. absurd (omega arith)))

  -- Each slot that the loop visits gets the object of the next one.
  pub shift_within :
      (n i m k : ℕ) (v : ShmVector T)
      → Spread v m
      → i + n < m
      → i ≤ k
      → k < i + n
      → (shift n i v).memory (get_element_ptr v k) ≡ v.memory (get_element_ptr v (suc k))
  unfolding shift
  shift_within zero i m k v apart room low high = absurd (omega arith)
  shift_within (suc n) i m k v apart room low high =
      let moved = put v i (read v (get_element_ptr v (suc i))) in
      let w = put moved (suc i) none in
      elim (Bool-cases (i == k)) [
        | inl t ↦
            let e : i ≡ k = (==_iff i k).0 t in
            subst
              (λ k.
                (shift n (suc i) w).memory (get_element_ptr v k)
                ≡ v.memory (get_element_ptr v (suc k)))
              e
              (shift_below n (suc i) m i w apart (omega arith) (omega arith)
                ∙ write_miss _ _ none moved.memory
                    (apart i (suc i) (omega arith) (omega arith) (λ e. absurd (omega arith)))
                ∙ write_hit _ _ v.memory)
        | inr t ↦
            let ne : i ≢ k = λ e. absurd (ne_of t e) in
            shift_within n (suc i) m k w apart (omega arith) (omega (arith, ne)) (omega arith)
            ∙ write_miss _ _ none moved.memory
                (apart (suc k) (suc i) (omega arith) (omega arith) (λ e. ne (omega arith)))
            ∙ write_miss _ _ _ v.memory
                (apart (suc k) i (omega arith) (omega arith) (λ e. absurd (omega arith)))
      ]
    where
      ne_of : (i == k) ≡ false → i ≢ k
      ne_of t e = ground arith
