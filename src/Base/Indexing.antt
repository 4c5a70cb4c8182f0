-- ===== src/Base/Indexing.antt =====
-- Reading by index in a list that an element was appended to or erased from.
use Prim.Native.Nat.{ℕ, zero, suc, ◌≤◌, ◌<◌}
use mathlib.Core.Path.{◌≡◌, refl, ap}
use mathlib.Core.List.{List, [], ◌∷◌, ◌++◌}
use mathlib.Core.Option.{some}
use native.Mathlib.Omega.{arith}
use http.Base.Lists.{length, get_elem?, erase_idx}

pub get_elem-append_left :
    {T : Type 0} (xs ys : List T) (i : ℕ) → i < length xs → get_elem? (xs ++ ys) i ≡ get_elem? xs i
get_elem-append_left [] ys i h = absurd (omega arith)
get_elem-append_left (x ∷ xs) ys zero h = refl
get_elem-append_left (x ∷ xs) ys (suc i) h = get_elem-append_left xs ys i (omega arith)

pub get_elem-append_here :
    {T : Type 0} (xs : List T) (y : T) → get_elem? (xs ++ y ∷ []) (length xs) ≡ some y
get_elem-append_here [] y = refl
get_elem-append_here (x ∷ xs) y = get_elem-append_here xs y

pub get_elem-erase_below :
    {T : Type 0} (xs : List T) (i k : ℕ) → k < i → get_elem? (erase_idx xs i) k ≡ get_elem? xs k
get_elem-erase_below [] i k h = refl
get_elem-erase_below (x ∷ xs) zero k h = absurd (omega arith)
get_elem-erase_below (x ∷ xs) (suc i) zero h = refl
get_elem-erase_below (x ∷ xs) (suc i) (suc k) h = get_elem-erase_below xs i k (omega arith)

pub get_elem-erase_above :
    {T : Type 0} (xs : List T) (i k : ℕ)
    → i ≤ k
    → get_elem? (erase_idx xs i) k ≡ get_elem? xs (suc k)
get_elem-erase_above [] i k h = refl
get_elem-erase_above (x ∷ xs) zero k h = refl
get_elem-erase_above (x ∷ xs) (suc i) zero h = absurd (omega arith)
get_elem-erase_above (x ∷ xs) (suc i) (suc k) h = get_elem-erase_above xs i k (omega arith)

pub length-erase_idx :
    {T : Type 0} (xs : List T) (i : ℕ) → i < length xs → suc (length (erase_idx xs i)) ≡ length xs
length-erase_idx [] i h = absurd (omega arith)
length-erase_idx (x ∷ xs) zero h = refl
length-erase_idx (x ∷ xs) (suc i) h = ap suc (length-erase_idx xs i (omega arith))
