-- ===== src/MemoryManager/Segments.antt =====
-- Where the segments lie in the block that the manager allocated.
use http.Base.{
  List, length, get_elem?, ◌∙◌, ap, ℕ, suc, ◌+◌, ◌*◌, ◌%◌, ◌^◌, ◌≤◌, ◌<◌, ◌≡◌, arith, some,
}
use http.MemoryManager.{MemoryManager, get_mem_pointer}
use http.MemoryManager.Rotation.{calls, calls-address, IsReady, address, get_mem_pointer-address}
use native.Mathlib.Nat.{mod-lt, mul-le-mul_right, mul-le-mul_left}

segment_address :
    (m : MemoryManager) (k : ℕ)
    → k < m.segment_count
    → m.memory_base_address + m.segment_count * m.segment_size ≤ 2 ^ 64
    → 0 < m.segment_size
    → address 1 m k ≡ m.memory_base_address + k * m.segment_size
segment_address m k h room positive =
    let upto : suc k * m.segment_size ≤ m.segment_count * m.segment_size =
      mul-le-mul_right m.segment_size h in
    omega (arith, upto, room)

-- For objects of one byte and segments that are not empty, in a block that ends within the address
-- space: the segment of each number is returned at the base address plus that number of segment
-- sizes, and lies within the block.
pub get_mem_pointer-in_block :
    (m : MemoryManager) (k : ℕ)
    → IsReady 1 m
    → k < m.segment_count
    → m.memory_base_address + m.segment_count * m.segment_size ≤ 2 ^ 64
    → 0 < m.segment_size
    → (p : ℕ) × (get_mem_pointer 1 m k ≡ some p)
      × (p ≡ m.memory_base_address + k * m.segment_size)
      × (p + m.segment_size ≤ m.memory_base_address + m.segment_count * m.segment_size)
get_mem_pointer-in_block m k r h room positive =
    let upto : suc k * m.segment_size ≤ m.segment_count * m.segment_size =
      mul-le-mul_right m.segment_size h in
    (
      address 1 m k,
      get_mem_pointer-address 1 m k r h,
      omega (arith, upto, room),
      omega (arith, upto, room),
    )

-- Any number of calls on a manager for objects of one byte that is ready, with segments that are
-- not empty in a block that ends within the address space: they return the beginnings of the
-- segments in turn, from the one at the offset on, each at the base address plus its number of
-- segment sizes, and after the last segment they begin again.
pub calls-rotate :
    (n : ℕ) (m : MemoryManager)
    → IsReady 1 m
    → m.memory_base_address + m.segment_count * m.segment_size ≤ 2 ^ 64
    → 0 < m.segment_size
    → (ps : List ℕ) × (w : MemoryManager) × (calls 1 n m ≡ some (ps, w))
      × (length ps ≡ n)
      × ((k : ℕ)
          → k < n
          → get_elem? ps k
            ≡ some
                (m.memory_base_address + (m.segment_offset + k) % m.segment_count * m.segment_size))
      × (w.segment_offset ≡ (m.segment_offset + n) % m.segment_count)
      × IsReady 1 w
calls-rotate n m r room positive =
    let (ps, w, run, long, each, at, ready) = calls-address 1 n m r in
    (
      ps,
      w,
      run,
      long,
      λ k h.
          each k h
          ∙ ap some (
              segment_address m ((m.segment_offset + k) % m.segment_count)
                (mod-lt _ (omega (arith, r.in_turn))) room positive),
      at,
      ready,
    )

-- For objects of two bytes or more the offset is multiplied by their size twice: a segment whose
-- number is a quarter of the count or more, at an address that does not wrap, is returned past the
-- end of the block.
pub get_mem_pointer-past_block :
    (size_of_t : ℕ) (m : MemoryManager) (k : ℕ)
    → IsReady size_of_t m
    → 2 ≤ size_of_t
    → k < m.segment_count
    → m.segment_count ≤ 4 * k
    → m.memory_base_address + k * m.segment_size * size_of_t * size_of_t < 2 ^ 64
    → (p : ℕ) × (get_mem_pointer size_of_t m k ≡ some p)
      × (m.memory_base_address + m.segment_count * m.segment_size ≤ p)
get_mem_pointer-past_block s m k r two h quarter room =
    let n = k * m.segment_size in
    let once : n * 2 ≤ n * s = mul-le-mul_left n two in
    let twice : n * s * 2 ≤ n * s * s = mul-le-mul_left (n * s) two in
    let size : m.segment_count * m.segment_size ≤ 4 * k * m.segment_size =
      mul-le-mul_right m.segment_size quarter in
    let total : n * 4 ≤ n * s * s = omega (arith, once, twice) in
    let whole : n * s % 2 ^ 64 ≡ n * s = omega (arith, twice, room) in
    (address s m k, get_mem_pointer-address s m k r h, rw whole (omega (arith, total, size, room)))
