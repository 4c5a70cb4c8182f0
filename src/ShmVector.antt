-- ===== src/ShmVector.antt =====
-- class SHMVector of src/SHMVector.hpp: a vector in shared memory, whose element `i` stands at the
-- address base + i * segment size, behind a spinlock. Here a call runs alone, so one
-- that meets a lock that is held spins for ever; Threads has callers at the same time. Memory is the object that lives at each
-- address; a segment has room for an object.
pub mod Layout
pub mod Contents
pub mod Erase
pub mod Faults
pub mod Threads
use http.Base.{
  ℕ, zero, suc, ◌+◌, ◌-◌, ◌*◌, ◌%◌, ◌^◌, Bool, true, false, Option, none, some, ltb, leb, ◌==◌,
  if◌then◌else◌,
}

pub record ShmVector (T : Type 0) : Type 0 where
  pub segment_size_bytes : ℕ
  pub capacity : ℕ
  pub size : ℕ
  pub memory_base : ℕ
  pub memory_total_bytes : ℕ
  pub lock : Bool
  pub memory : ℕ → Option T

pub data ShmError : Type 0 where
  bad_alloc out_of_range : ShmError

-- A call returns, throws, or waits for the lock for ever.
pub data Call (T A : Type 0) : Type 0 where
  returned : A → ShmVector T → Call T A
  thrown : ShmError → ShmVector T → Call T A
  spins : ShmVector T → Call T A

-- The constructor; `none` is the exception `invalid_argument`, and a null pointer is 0.
unfoldable pub construct : {T : Type 0} → (ℕ → Option T) → ℕ → ℕ → ℕ → Option (ShmVector T)
construct memory segment_size pointer total =
    if segment_size == 0
    then none
    else if pointer == 0
    then none
    else if total == 0
    then none
    else some (record {
      segment_size_bytes = segment_size;
      capacity = 0;
      size = 0;
      memory_base = pointer;
      memory_total_bytes = total;
      lock = false;
      memory = memory;
    })

abbrev pub get_element_ptr : {T : Type 0} → ShmVector T → ℕ → ℕ
get_element_ptr v index = (v.memory_base + index * v.segment_size_bytes) % 2 ^ 64

abbrev pub read : {T : Type 0} → ShmVector T → ℕ → Option T
read v address = v.memory address

-- The memory with an object, or none, at the address.
unfoldable pub write : {T : Type 0} → ℕ → Option T → (ℕ → Option T) → ℕ → Option T
write address o memory a = if a == address then o else memory a

abbrev pub put : {T : Type 0} → ShmVector T → ℕ → Option T → ShmVector T
put v index o = record v { memory = write (get_element_ptr v index) o v.memory }

abbrev pub acquired : {T : Type 0} → ShmVector T → ShmVector T
acquired v = record v { lock = true }

abbrev pub released : {T : Type 0} → ShmVector T → ShmVector T
released v = record v { lock = false }

-- `reserve` behind the spinlock.
unfoldable pub reserve_locked : {T : Type 0} → ShmVector T → ℕ → Call T (Unit {0})
reserve_locked v element_count =
    let total_bytes = element_count * v.segment_size_bytes % 2 ^ 64 in
    if leb element_count v.capacity
    then returned tt (released v)
    else if ltb v.memory_total_bytes total_bytes
    then thrown bad_alloc (released v)
    else returned tt (released (record v { capacity = element_count }))

unfoldable pub reserve : {T : Type 0} → ShmVector T → ℕ → Call T (Unit {0})
unfolding reserve_locked
reserve v element_count =
    if leb element_count v.capacity
    then returned tt v
    else if v.lock
    then spins v
    else reserve_locked (acquired v) element_count

abbrev pub doubled : ℕ → ℕ
doubled capacity = if capacity == 0 then 1 else capacity * 2 % 2 ^ 64

-- The element is constructed behind the others.
abbrev pub placed : {T : Type 0} → ShmVector T → T → ShmVector T
placed v x = released (record (put v v.size (some x)) { size = suc v.size })

-- `push_back` behind the spinlock.
unfoldable pub push_back_locked : {T : Type 0} → ShmVector T → T → Call T (Unit {0})
unfolding write
push_back_locked v x =
    let new_capacity = doubled v.capacity in
    let total_bytes = new_capacity * v.segment_size_bytes % 2 ^ 64 in
    if leb v.capacity v.size
    then (if ltb v.memory_total_bytes total_bytes
        then thrown bad_alloc (released v)
        else returned tt (placed (record v { capacity = new_capacity }) x))
    else returned tt (placed v x)

unfoldable pub push_back : {T : Type 0} → ShmVector T → T → Call T (Unit {0})
unfolding push_back_locked
push_back v x = if v.lock then spins v else push_back_locked (acquired v) x

-- The result of `at` is a reference: the address of the element.
unfoldable pub at : {T : Type 0} → ShmVector T → ℕ → Call T ℕ
at v index =
    let w = acquired v in
    if v.lock
    then spins v
    else if leb w.size index
    then thrown out_of_range (released w)
    else returned (get_element_ptr w index) (released w)

unfoldable pub size_of : {T : Type 0} → ShmVector T → Call T ℕ
size_of v = let w = acquired v in if v.lock then spins v else returned w.size (released w)

unfoldable pub capacity_of : {T : Type 0} → ShmVector T → ℕ
capacity_of v = v.capacity

unfoldable pub segment_size : {T : Type 0} → ShmVector T → ℕ
segment_size v = v.segment_size_bytes

-- The loop of `eraseAt_unlocked`, with `n` rounds left.
unfoldable pub shift : {T : Type 0} → ℕ → ℕ → ShmVector T → ShmVector T
unfolding write
shift zero i v = v
shift (suc n) i v =
    let copied = put v i (read v (get_element_ptr v (suc i))) in
    shift n (suc i) (put copied (suc i) none)

unfoldable pub erase_at_unlocked : {T : Type 0} → ShmVector T → ℕ → Call T (Unit {0})
unfolding shift
erase_at_unlocked v index =
    let w = shift (v.size - 1 - index) index (put v index none) in
    if leb v.size index then thrown out_of_range v else returned tt (record w { size = w.size - 1 })

-- An exception leaves `eraseAt` as it is: the lock is released only behind the call.
unfoldable pub erase_at : {T : Type 0} → ShmVector T → ℕ → Call T (Unit {0})
unfolding erase_at_unlocked
erase_at v index =
    let erased = erase_at_unlocked (acquired v) index in
    if v.lock then spins v else elim erased [
      | returned u w ↦ returned tt (released w)
      | thrown e w ↦ thrown e w
      | spins w ↦ spins w
    ]

-- `getNextElement` behind the spinlock; the value `none` is read where no object lives.
unfoldable pub get_next_locked : {T : Type 0} → ShmVector T → Call T (Option T)
unfolding erase_at_unlocked
get_next_locked v =
    let result = read v (get_element_ptr v 0) in
    let erased = erase_at_unlocked v 0 in
    if v.size == 0 then thrown out_of_range (released v) else elim erased [
      | returned u w ↦ returned result (released w)
      | thrown e w ↦ thrown e w
      | spins w ↦ spins w
    ]

unfoldable pub get_next_element : {T : Type 0} → ShmVector T → Call T (Option T)
unfolding get_next_locked
get_next_element v = if v.lock then spins v else get_next_locked (acquired v)

-- The destructor: every element is destroyed, the memory stays. `n` rounds are left.
unfoldable pub destroy_from : {T : Type 0} → ℕ → ℕ → ShmVector T → ShmVector T
unfolding write
destroy_from zero i v = v
destroy_from (suc n) i v = destroy_from n (suc i) (put v i none)

unfoldable pub destroy : {T : Type 0} → ShmVector T → ShmVector T
unfolding destroy_from
destroy v = destroy_from v.size 0 v
