-- ===== src/ShmVector/Faults.antt =====
-- Where a vector in shared memory fails: an exception of `eraseAt` keeps the lock, and the size of
-- the memory is compared with a product that wraps.
use http.Base.{ℕ, ◌*◌, ◌%◌, ◌^◌, ◌≤◌, ◌<◌, ◌≡◌, refl, true, false, arith, ltb, leb}
use http.ShmVector.{
  ShmVector, returned, thrown, spins, out_of_range, acquired, erase_at_unlocked, erase_at,
  push_back, get_next_element, at, size_of, reserve, reserve_locked,
}

module _ {T : Type 0} where
  reserve_waits :
      (v : ShmVector T) (n : ℕ) → v.capacity < n → reserve (acquired v) n ≡ spins (acquired v)
  unfolding reserve
  reserve_waits v n h = let more : leb n v.capacity ≡ false = ground arith in rw more refl

  -- `eraseAt` past the last element of a free vector throws and keeps the lock: after that
  -- `push_back`, `getNextElement`, `eraseAt`, `at`, `size`, and a `reserve` beyond the capacity
  -- spin for ever.
  pub erase_at-keeps_lock :
      (v : ShmVector T) (i : ℕ)
      → v.lock ≡ false
      → v.size ≤ i
      → (w : ShmVector T) × (erase_at v i ≡ thrown out_of_range w)
        × ((x : T) → push_back w x ≡ spins w)
        × (get_next_element w ≡ spins w)
        × ((k : ℕ) → erase_at w k ≡ spins w)
        × ((k : ℕ) → at w k ≡ spins w)
        × (size_of w ≡ spins w)
        × ((n : ℕ) → v.capacity < n → reserve w n ≡ spins w)
  unfolding erase_at erase_at_unlocked push_back get_next_element at size_of
  erase_at-keeps_lock v i free past =
      let out : leb v.size i ≡ true = ground arith in
      (
        acquired v,
        rw (free, out) refl,
        λ x. refl,
        refl,
        λ k. refl,
        λ k. refl,
        refl,
        reserve_waits v,
      )

  -- `reserve` on a free vector in a memory below 2 ^ 64 bytes, for more elements than there is
  -- capacity: where their size in bytes is 2 ^ 64 or more but fits modulo 2 ^ 64, the call returns
  -- with a capacity that is larger than the memory.
  pub reserve-wraps :
      (v : ShmVector T) (n : ℕ)
      → v.lock ≡ false
      → v.capacity < n
      → v.memory_total_bytes < 2 ^ 64
      → 2 ^ 64 ≤ n * v.segment_size_bytes
      → n * v.segment_size_bytes % 2 ^ 64 ≤ v.memory_total_bytes
      → (w : ShmVector T) × (reserve v n ≡ returned tt w)
        × (w.memory_total_bytes < w.capacity * w.segment_size_bytes)
  unfolding reserve reserve_locked
  reserve-wraps v n free more small wraps fits =
      let grows : leb n v.capacity ≡ false = ground arith in
      let room : ltb v.memory_total_bytes (n * v.segment_size_bytes % 2 ^ 64) ≡ false =
        ground arith in
      (record v { capacity = n; lock = false }, rw (free, grows, room) refl, omega arith)
