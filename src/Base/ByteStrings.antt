-- ===== src/Base/ByteStrings.antt =====
-- Byte strings, and the operations of std::string and std::string_view that the sources call.
use Prim.Native.Char.{code}
use Prim.Native.String.{String}
use Prim.Native.Nat.{ℕ, zero, suc}
use mathlib.Core.List.{List, [], ◌∷◌}
use mathlib.Core.Bool.{Bool, true, false, ◌&&◌}
use mathlib.Core.Option
use mathlib.Core.Option.{Option, none, some}
use http.Base.Tests.{◌==◌, if◌then◌else◌}
use http.Base.Lists.{take, drop, null}

abbrev pub Bytes : Type 0
Bytes = List ℕ

-- The code points of a literal; they are its bytes where the literal is ASCII.
abbrev pub codes : String → Bytes
codes String.[] = []
codes (String.◌∷◌ c s) = code c ∷ codes s

-- operator== of two strings
unfoldable pub equal : Bytes → Bytes → Bool
equal [] [] = true
equal (x ∷ xs) (y ∷ ys) = x == y && equal xs ys
equal _ _ = false

-- Whether `s` starts with `d`.
unfoldable pub starts : Bytes → Bytes → Bool
starts [] s = true
starts (x ∷ d) [] = false
starts (x ∷ d) (c ∷ s) = x == c && starts d s

-- `s.find(d)`: the position of the first occurrence; `none` is npos.
unfoldable pub find : Bytes → Bytes → Option ℕ
unfolding starts
find [] d = if null d then some 0 else none
find (c ∷ s) d = if starts d (c ∷ s) then some 0 else Option.map suc (find s d)

-- `s.rfind(d, p)`: the last occurrence that starts at `p` or before. A `d` that is not empty
-- does not occur behind the end of `s`, so a `p` past the end needs no clamp.
unfoldable pub rfind : Bytes → Bytes → ℕ → Option ℕ
unfolding starts
rfind s d zero = if starts d s then some 0 else none
rfind s d (suc p) = if starts d (drop (suc p) s) then some (suc p) else rfind s d p

-- `s.substr(pos, n)` for a `pos` within the string.
abbrev pub substr : ℕ → ℕ → Bytes → Bytes
substr pos n s = take n (drop pos s)
