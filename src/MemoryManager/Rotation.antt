-- ===== src/MemoryManager/Rotation.antt =====
-- The segments are handed out in turn, and where they lie in the block.
use http.Base.{
  ℕ, zero, suc, ◌+◌, ◌*◌, ◌%◌, ◌^◌, ◌≤◌, ◌<◌, ◌≡◌, refl, sym, true, Option, none, some, ltb, le→leb,
  List, [], ◌∷◌, length, get_elem?, leb, arith, if◌then◌else◌, ◌∙◌, ap, Bool-cases, inl, inr,
}
use http.Message.{int_max}
use native.Mathlib.Nat.{mul-le-mul_right, add-mod_left, mod-eq_of_lt}
use http.MemoryManager.{MemoryManager, get_mem_pointer, get_next_mem_pointer}

module _ (size_of_t : ℕ) where
  -- What the code computes for an offset; MemoryManager/Segments compares it with the block.
  abbrev pub address : MemoryManager → ℕ → ℕ
  address m k =
      (m.memory_base_address + k * m.segment_size * size_of_t % 2 ^ 64 * size_of_t) % 2 ^ 64

  -- The results of `n` calls of `getNextMemPointer`, and the state after them.
  unfoldable pub calls : ℕ → MemoryManager → Option (List ℕ × MemoryManager)
  calls zero m = some ([], m)
  calls (suc n) m = elim (get_next_mem_pointer size_of_t m) [
    | none ↦ none
    | some (pointer, m') ↦ elim (calls n m') [
      | none ↦ none
      | some (pointers, w) ↦ some (pointer ∷ pointers, w)
    ]
  ]

  -- A manager whose block has a size that an int holds, and whose offset is that of a segment.
  pub record IsReady (m : MemoryManager) : Type 0 where
    pub in_turn : m.segment_offset < m.segment_count
    pub block : m.segment_count * m.segment_size ≤ int_max

  pub get_mem_pointer-address :
      (m : MemoryManager) (k : ℕ)
      → IsReady m
      → k < m.segment_count
      → get_mem_pointer size_of_t m k ≡ some (address m k)
  unfolding get_mem_pointer
  get_mem_pointer-address m k r h =
      let inside : ltb k m.segment_count ≡ true = ground arith in
      let less : k * m.segment_size ≤ m.segment_count * m.segment_size =
        mul-le-mul_right m.segment_size (omega arith) in
      let fits : leb (k * m.segment_size) int_max ≡ true =
        le→leb _ _ (omega (arith, less, r.block)) in
      rw (inside, fits) refl

  abbrev pub turned : MemoryManager → MemoryManager
  turned m = record m {
    segment_offset = if leb m.segment_count (m.segment_offset + 1) then 0 else m.segment_offset + 1;
  }

  pub turned-IsReady : (m : MemoryManager) → IsReady m → IsReady (turned m)
  turned-IsReady m r = record { in_turn = ground (arith, r.in_turn); block = r.block }

  pub get_next_mem_pointer-address :
      (m : MemoryManager)
      → IsReady m
      → get_next_mem_pointer size_of_t m ≡ some (address m m.segment_offset, turned m)
  unfolding get_next_mem_pointer
  get_next_mem_pointer-address m r =
      rw (get_mem_pointer-address m m.segment_offset r r.in_turn, get_next_mem_pointer) refl

  turn_mod :
      (m : MemoryManager) (k : ℕ)
      → IsReady m
      → ((turned m).segment_offset + k) % m.segment_count
        ≡ (m.segment_offset + suc k) % m.segment_count
  turn_mod m k r = elim (Bool-cases (leb m.segment_count (m.segment_offset + 1))) [
    | inl t ↦ rw t (
        ap (λ n. n % m.segment_count) (omega arith)
        ∙ sym (add-mod_left m.segment_count k)
        ∙ ap (λ n. n % m.segment_count) (ground (arith, r.in_turn)))
    | inr t ↦ rw t (ap (λ n. n % m.segment_count) (omega arith))
  ]

  -- Any number of calls on a manager that is ready: each returns what the offset that has come to
  -- its turn gives, and after the last offset they begin again.
  pub calls-address :
      (n : ℕ) (m : MemoryManager)
      → IsReady m
      → (ps : List ℕ) × (w : MemoryManager) × (calls n m ≡ some (ps, w))
        × (length ps ≡ n)
        × ((k : ℕ)
            → k < n
            → get_elem? ps k ≡ some (address m ((m.segment_offset + k) % m.segment_count)))
        × (w.segment_offset ≡ (m.segment_offset + n) % m.segment_count)
        × IsReady w
  unfolding calls
  calls-address zero m r = (
    [],
    m,
    refl,
    refl,
    λ k h. absurd (omega arith),
    sym (ap (λ n. n % m.segment_count) (omega arith) ∙ mod-eq_of_lt r.in_turn),
    r,
  )
  calls-address (suc n) m r =
      let (ps, w, run, long, each, at, ready) = calls-address n (turned m) (turned-IsReady m r) in
      (
        address m m.segment_offset ∷ ps,
        w,
        rw (get_next_mem_pointer-address m r, calls) (rw (run, calls) refl),
        ap suc long,
        pointers ps each,
        at ∙ turn_mod m n r,
        ready,
      )
    where
      pointers :
          (ps : List ℕ)
          → ((k : ℕ)
              → k < n
              → get_elem? ps k
                ≡ some (address m (((turned m).segment_offset + k) % m.segment_count)))
          → (k : ℕ) → k < suc n
          → get_elem? (address m m.segment_offset ∷ ps) k
            ≡ some (address m ((m.segment_offset + k) % m.segment_count))
      pointers ps each zero h =
          ap (λ o. some (address m o))
            (sym (ap (λ n. n % m.segment_count) (omega arith) ∙ mod-eq_of_lt r.in_turn))
      pointers ps each (suc k) h =
          each k (omega arith) ∙ ap (λ o. some (address m o)) (turn_mod m k r)
