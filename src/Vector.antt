-- ===== src/Vector.antt =====
-- class Vector of src/Vector.hpp: a vector that erases the elements at several indices in one call.
pub mod MultiErase
use http.Base.{
  ℕ, zero, suc, ◌+◌, ◌-◌, Bool, true, false, Option, none, some, List, [], ◌∷◌, length, erase_idx,
  ltb, leb, if◌then◌else◌,
}

module _ {A : Type 0} where
  -- The loop of `erase`: the vector, `erase_count` and the indices that are left. `none` is an
  -- erase outside of the elements, which the standard library leaves undefined.
  unfoldable pub erase_loop : List A → ℕ → List ℕ → Option (List A)
  erase_loop xs erase_count [] = some xs
  erase_loop xs erase_count (i ∷ is) =
      let skipped = erase_loop xs erase_count is in
      let erased = erase_loop (erase_idx xs (i - erase_count)) (suc erase_count) is in
      if leb i (length xs)
      then (if ltb i erase_count
          then none
          else if leb (length xs) (i - erase_count)
          then none
          else erased)
      else skipped

  unfoldable pub erase : List A → List ℕ → Option (List A)
  unfolding erase_loop
  erase xs erase_elements = erase_loop xs 0 erase_elements
