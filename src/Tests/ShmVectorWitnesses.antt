-- ===== src/Tests/ShmVectorWitnesses.antt =====
-- Witnesses of the theorems on the vector in shared memory: a vector with segments of 8 bytes in a
-- memory of 64 bytes.
use http.Base.{
  if◌then◌else◌, ◌==◌, ℕ, zero, suc, ◌+◌, ◌*◌, ◌%◌, ◌^◌, ◌<◌, ◌≡◌, refl, false, Option, none, some,
  [], ◌∷◌, get_elem?, arith,
}
use http.ShmVector.{ShmVector, returned, push_back, erase_at, get_next_element}
use http.ShmVector.Contents.{Holds, push_back-Holds}
use http.ShmVector.Erase.{erase_at-Holds, get_next_element-Holds}

abbrev objects : ℕ → Option ℕ
objects a = if a == 4096 then some 7 else if a == 4104 then some 9 else none

abbrev two : ShmVector ℕ
two = record {
  segment_size_bytes = 8;
  capacity = 2;
  size = 2;
  memory_base = 4096;
  memory_total_bytes = 64;
  lock = false;
  memory = objects;
}

two-Holds : Holds two (7 ∷ 9 ∷ [])
two-Holds = record {
  sound = record {
    positive = omega arith;
    within = omega arith;
    fits = omega arith;
    not_null = omega arith;
    no_wrap = omega arith;
  };
  free = refl;
  length_is = refl;
  cells = cells;
}
  where
    cells : (i : ℕ) → i < 2 → objects ((4096 + i * 8) % 2 ^ 64) ≡ get_elem? (7 ∷ 9 ∷ []) i
    cells zero h = refl
    cells (suc zero) h = refl
    cells (suc (suc i)) h = absurd (omega arith)

push_back-Holds_example :
    (w : ShmVector ℕ) × (push_back two 5 ≡ returned tt w) × Holds w (7 ∷ 9 ∷ 5 ∷ [])
push_back-Holds_example = push_back-Holds two (7 ∷ 9 ∷ []) 5 two-Holds (λ h. omega arith)

erase_at-Holds_example : (w : ShmVector ℕ) × (erase_at two 0 ≡ returned tt w) × Holds w (9 ∷ [])
erase_at-Holds_example = erase_at-Holds two (7 ∷ 9 ∷ []) 0 two-Holds (omega arith)

get_next_element-Holds_example :
    (w : ShmVector ℕ) × (get_next_element two ≡ returned (some 7) w) × Holds w (9 ∷ [])
get_next_element-Holds_example = get_next_element-Holds two 7 (9 ∷ []) two-Holds
