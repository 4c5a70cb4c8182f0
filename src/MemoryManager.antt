-- ===== src/MemoryManager.antt =====
-- class MemoryManager of src/MemoryManager.hpp: segments of one block of memory, handed out in turn.
-- A product of two 16-bit numbers is an int; beyond its range it is undefined, which is `none`.
pub mod Rotation
pub mod Segments
use http.Base.{
  ℕ, zero, suc, ◌+◌, ◌*◌, ◌%◌, ◌^◌, Bool, true, false, Option, none, some, ltb, leb, ◌==◌,
  if◌then◌else◌,
}
use http.Message.{int_max}

pub record MemoryManager : Type 0 where
  pub segment_count : ℕ
  pub segment_size : ℕ
  pub segment_offset : ℕ
  pub memory_base_address : ℕ

abbrev pub int_product : ℕ → ℕ → Option ℕ
int_product a b = let n = a * b in if leb n int_max then some n else none

pub data Allocation : Type 0 where
  allocated : MemoryManager → Allocation
  bad_alloc undefined : Allocation

-- What `allocateMemory` leaves as the base address; `malloc` is a parameter, its result 0 is null.
-- The advice to the kernel about the pages has no effect on the state.
unfoldable pub allocate_memory : (ℕ → ℕ) → MemoryManager → Allocation
allocate_memory malloc m = elim (int_product m.segment_count m.segment_size) [
  | none ↦ undefined
  | some mem_size_bytes ↦
      let address = malloc mem_size_bytes in
      if address == 0 then bad_alloc else allocated (record m { memory_base_address = address })
]

-- The constructor; the base address is null until it is allocated.
unfoldable pub construct : (ℕ → ℕ) → ℕ → ℕ → Allocation
unfolding allocate_memory
construct malloc segment_count segment_size = allocate_memory malloc (record {
  segment_count = segment_count;
  segment_size = segment_size;
  segment_offset = 0;
  memory_base_address = 0;
})

-- `isAligned`, with the alignment of `T`.
unfoldable pub is_aligned : ℕ → ℕ → Bool
is_aligned alignment pointer = pointer % alignment == 0

module _ (size_of_t : ℕ) where
  -- The sum is one of a `T*`, so it counts in objects.
  unfoldable pub get_mem_pointer : MemoryManager → ℕ → Option ℕ
  get_mem_pointer m offset =
      if ltb offset m.segment_count
      then elim (int_product offset m.segment_size) [
        | none ↦ none
        | some n ↦ some ((m.memory_base_address + n * size_of_t % 2 ^ 64 * size_of_t) % 2 ^ 64)
      ]
      else some m.memory_base_address

  -- The result of `getNextMemPointer` and the state after it.
  unfoldable pub get_next_mem_pointer : MemoryManager → Option (ℕ × MemoryManager)
  unfolding get_mem_pointer
  get_next_mem_pointer m =
      let next = if leb m.segment_count (m.segment_offset + 1) then 0 else m.segment_offset + 1 in
      elim (get_mem_pointer m m.segment_offset) [
        | none ↦ none
        | some pointer ↦ some (pointer, record m { segment_offset = next })
      ]

unfoldable pub get_mem_base_address : MemoryManager → ℕ
get_mem_base_address m = m.memory_base_address

-- The destructor; `free` is a parameter.
unfoldable pub destruct : {S : Type 0} → (ℕ → S → S) → MemoryManager → S → S
destruct free m s = free m.memory_base_address s
