-- ===== src/Tests/MemoryWitnesses.antt =====
-- Witnesses of the theorems on the memory manager and on the erase of several indices.
use http.Base.{ℕ, ◌+◌, ◌*◌, ◌%◌, ◌≤◌, ◌<◌, ◌≡◌, refl, some, List, [], ◌∷◌, length, get_elem?, arith}
use http.MemoryManager.{MemoryManager, get_mem_pointer}
use http.MemoryManager.Rotation.{IsReady, calls}
use http.MemoryManager.Segments.{calls-rotate, get_mem_pointer-past_block}
use http.Vector.{erase}
use http.Vector.MultiErase.{erase-skips}

abbrev four_segments : MemoryManager
four_segments = record {
  segment_count = 4;
  segment_size = 32;
  segment_offset = 3;
  memory_base_address = 4096;
}

four_segments-IsReady : (size_of_t : ℕ) → IsReady size_of_t four_segments
four_segments-IsReady size_of_t = record { in_turn = omega arith; block = omega arith }

calls-rotate_example :
    (ps : List ℕ) × (w : MemoryManager) × (calls 1 6 four_segments ≡ some (ps, w))
    × (length ps ≡ 6)
    × ((k : ℕ) → k < 6 → get_elem? ps k ≡ some (4096 + (3 + k) % 4 * 32))
    × (w.segment_offset ≡ (3 + 6) % 4)
    × IsReady 1 w
calls-rotate_example =
    calls-rotate 6 four_segments (four_segments-IsReady 1) (omega arith) (omega arith)

get_mem_pointer-past_block_example :
    (p : ℕ) × (get_mem_pointer 4 four_segments 1 ≡ some p) × (4096 + 4 * 32 ≤ p)
get_mem_pointer-past_block_example =
    get_mem_pointer-past_block 4 four_segments 1 (four_segments-IsReady 4) (omega arith)
      (omega arith) (omega arith) (omega arith)

abbrev four : List ℕ
four = 10 ∷ 11 ∷ 12 ∷ 13 ∷ []

abbrev five : List ℕ
five = 10 ∷ 11 ∷ 12 ∷ 13 ∷ 14 ∷ []

erase-skips_example : erase four (1 ∷ 2 ∷ 3 ∷ []) ≡ erase four (1 ∷ 2 ∷ [])
erase-skips_example = erase-skips four 1 2 3 (omega arith) (omega arith) refl
