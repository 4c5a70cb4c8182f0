-- ===== src/ShmVector/Threads/Linear.antt =====
-- The vector under callers that run at the same time: what they get, and that they end.
use http.Base.{
  ℕ, ◌≤◌, ◌≡◌, refl, sym, ◌∙◌, ap, subst, ◌⊎◌, inl, inr, true, false, some, List, [], arith, leb,
  ◌==◌, ==_iff, Bool-cases,
}
use http.ShmVector.{ShmVector, out_of_range}
use http.ShmVector.Threads.{
  Value, erase_test, ends, step_locked, Pc, resting, threw, System, inside, with_pc, Step, calls,
  skips, tries, waits, acquires, moves, leaves, Reach, initial, start, later, replay, latest,
}
use http.ShmVector.Threads.Room.{IsRoomy}
use http.ShmVector.Threads.Order.{is_inside, Given, Holder, Inv, with_pc-all}
use http.ShmVector.Threads.Behind.{Step-Inv, Inside-of}

module _ {T : Type 0} where
  start-Inv :
      (segment_size : ℕ) (v : ShmVector T) → IsRoomy segment_size v → Inv segment_size v (initial v)
  unfolding replay
  start-Inv segment_size v roomy = record {
    values = [];
    committed = v;
    replayed = refl;
    roomy = roomy;
    admitted = λ i. tt;
    given = λ i. refl;
    holder = inl (refl, λ i. refl);
  }

  Reach-Inv :
      (segment_size : ℕ) (v : ShmVector T) {s : System T}
      → IsRoomy segment_size v
      → Reach (initial v) s
      → Inv segment_size v s
  Reach-Inv segment_size v roomy start = start-Inv segment_size v roomy
  Reach-Inv segment_size v roomy (later r step) =
      Step-Inv segment_size v step (Reach-Inv segment_size v roomy r)

  -- Somebody is behind the spinlock, or the vector is the one of the calls so far.
  Holder-settled :
      {segment_size : ℕ} {shared w : ShmVector T} {pc : ℕ → Pc T} {values : List (ℕ × Value T)}
      → Holder segment_size shared w pc values
      → (shared ≡ w) ⊎ ((i : ℕ) × (is_inside (pc i) ≡ true))
  Holder-settled (inl (same, out)) = inl same
  Holder-settled {pc = pc} (inr (i, h)) = inr (i, ap is_inside h.stands)

  -- Callers of a vector whose capacity is within a memory of less than 2 ^ 63 bytes, in any
  -- interleaving of their steps, with calls of `reserve` whose size in bytes does not wrap: the calls
  -- one after the other, in the order in which they got the lock or passed the test of `reserve`
  -- without it, all come to an end; every caller between two calls has the value of its last call
  -- there; and the vector is the one after these calls, or somebody is behind the spinlock.
  pub Reach-replay :
      (segment_size : ℕ) (v : ShmVector T) (s : System T)
      → IsRoomy segment_size v
      → Reach (initial v) s
      → (values : List (ℕ × Value T)) × (w : ShmVector T) × (replay v s.log ≡ some (values, w))
        × ((i : ℕ) → Given (s.pc i) (latest i values))
        × ((s.shared ≡ w) ⊎ ((i : ℕ) × (is_inside (s.pc i) ≡ true)))
  Reach-replay segment_size v s roomy r =
      let h : Inv segment_size v s = Reach-Inv segment_size v roomy r in
      (h.values, h.committed, h.replayed, h.given, Holder-settled h.holder)

  Holder-one :
      {segment_size : ℕ} {shared w : ShmVector T} {pc : ℕ → Pc T} {values : List (ℕ × Value T)}
      (i : ℕ)
      → is_inside (pc i) ≡ true
      → Holder segment_size shared w pc values
      → (k : ℕ) × (i ≡ k) × ((j : ℕ) → (j == k) ≡ false → is_inside (pc j) ≡ false)
  Holder-one i here (inl (same, out)) = let e = out i in absurd cc
  Holder-one i here (inr (k, h)) = elim (Bool-cases (i == k)) [
    | inl same ↦ (k, (==_iff i k).0 same, h.others)
    | inr other ↦ let e = h.others i other in absurd cc
  ]

  -- Callers of a vector whose capacity is within a memory of less than 2 ^ 63 bytes, in any
  -- interleaving of their steps, with calls of `reserve` whose size in bytes does not wrap: when a
  -- caller is behind the spinlock, it is the only one.
  pub Reach-one_inside :
      (segment_size : ℕ) (v : ShmVector T) (s : System T) (i : ℕ)
      → IsRoomy segment_size v
      → Reach (initial v) s
      → is_inside (s.pc i) ≡ true
      → (j : ℕ) → is_inside (s.pc j) ≡ (j == i)
  Reach-one_inside segment_size v s i roomy r here j =
      let h : Inv segment_size v s = Reach-Inv segment_size v roomy r in
      let (k, i_is, others) = Holder-one i here h.holder in
      elim (Bool-cases (j == i)) [
        | inl same ↦ ap (λ n. is_inside (s.pc n)) ((==_iff j i).0 same) ∙ here ∙ sym same
        | inr other ↦ others j (subst (λ n. (j == n) ≡ false) i_is other) ∙ sym other
      ]

  -- A lock that is taken with nobody behind it stays taken.
  abbrev IsStuck : ShmVector T → System T → Type 0
  IsStuck v s = (s.shared ≡ v) × (s.shared.lock ≡ true) × ((i : ℕ) → is_inside (s.pc i) ≡ false)

  outside-IsStuck :
      (v : ShmVector T) (s : System T) (i : ℕ) (p : Pc T)
      → is_inside p ≡ false
      → IsStuck v s
      → IsStuck v (record s { pc = with_pc i p s.pc })
  outside-IsStuck v s i p out (same, locked, others) =
      (same, locked, with_pc-all (λ j q. is_inside q ≡ false) i p s.pc out (λ j e. others j))

  Step-IsStuck : (v : ShmVector T) {s t : System T} → Step s t → IsStuck v s → IsStuck v t
  Step-IsStuck v {s} (calls i op rests allowed) h = outside-IsStuck v s i _ refl h
  Step-IsStuck v {s} (skips i {op} here enough) (same, locked, others) =
      (same, locked, (outside-IsStuck v s i _ refl (same, locked, others)).2)
  Step-IsStuck v {s} (tries i {op} here enough) h = outside-IsStuck v s i _ refl h
  Step-IsStuck v (waits i here busy) h = h
  Step-IsStuck v {s} (acquires i {op} here free) (same, locked, others) = absurd cc
  Step-IsStuck v {s} (moves i {at} here step) (same, locked, others) =
      let t = ap is_inside here in let f = others i in absurd cc
  Step-IsStuck v {s} (leaves i {at} here step) (same, locked, others) =
      let t = ap is_inside here in let f = others i in absurd cc

  Reach-IsStuck : (v : ShmVector T) {s t : System T} → IsStuck v s → Reach s t → IsStuck v t
  Reach-IsStuck v h start = h
  Reach-IsStuck v h (later r step) = Step-IsStuck v step (Reach-IsStuck v h r)

  -- Callers of a vector whose capacity is within a memory of less than 2 ^ 63 bytes, in any
  -- interleaving of their steps, with calls of `reserve` whose size in bytes does not wrap: one that
  -- is about to erase behind the spinlock with an index out of range throws std::out_of_range without
  -- a change of the vector, and after that, whatever the callers do, the lock stays taken, the vector
  -- stays as it is and nobody is behind the spinlock again.
  pub erase_at-stuck :
      (segment_size : ℕ) (v : ShmVector T) (s t : System T) (i index : ℕ) (r : Value T)
      → IsRoomy segment_size v
      → Reach (initial v) s
      → s.pc i ≡ inside (erase_test index r)
      → s.shared.size ≤ index
      → Reach (record s { pc = with_pc i (resting (some (threw out_of_range))) s.pc }) t
      → (step_locked (erase_test index r) s.shared ≡ ends (threw out_of_range) s.shared)
        × (t.shared ≡ s.shared)
        × (t.shared.lock ≡ true)
        × ((j : ℕ) → is_inside (t.pc j) ≡ false)
  unfolding step_locked
  erase_at-stuck segment_size v s t i index r roomy before here past after =
      let h : Inv segment_size v s = Reach-Inv segment_size v roomy before in
      let (held, e) =
        Inside-of segment_size v s i (erase_test index r) h.committed h.values here h.holder in
      let out =
        with_pc-all (λ j q. is_inside q ≡ false) i (resting (some (threw out_of_range))) s.pc refl
          held.others in
      let past_end : leb s.shared.size index ≡ true = ground arith in
      let (same, locked, others) = Reach-IsStuck s.shared (refl, held.locked, out) after in
      (rw past_end refl, same, locked, others)
