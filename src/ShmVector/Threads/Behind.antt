-- ===== src/ShmVector/Threads/Behind.antt =====
-- The steps behind the spinlock keep the order of the calls, and so does every step.
use http.Base.{
  ℕ, ◌≡◌, ◌≢◌, refl, sym, ◌∙◌, ap, subst, inl, inr, true, false, some, List, ◌==◌, ==_iff,
  Bool-cases,
}
use http.ShmVector.{ShmVector}
use http.ShmVector.Threads.{
  Value, Section, goes, ends, step_locked, IsAdmitted, Pc, resting, called, spinning, inside,
  System, with_pc, Step, calls, skips, tries, waits, acquires, moves, leaves, latest,
}
use http.ShmVector.Threads.Alone.{complete, complete_after, complete-step_locked}
use http.ShmVector.Threads.Room.{IsRoomy, Grows, GrowsAfter, step_locked-Grows}
use http.ShmVector.Threads.Order.{
  is_inside, Given, Admitted, Inside, Holder, Inv, with_pc-all, with_pc-here, with_pc-there,
}
use http.ShmVector.Threads.Steps.{outside-Inv, skips-Inv, acquires-Inv}

module _ {T : Type 0} (segment_size : ℕ) (v : ShmVector T) where
  -- The caller behind the spinlock, where one moves there.
  pub Inside-of :
      (s : System T) (i : ℕ) (at : Section T) (w : ShmVector T) (values : List (ℕ × Value T))
      → s.pc i ≡ inside at
      → Holder segment_size s.shared w s.pc values
      → (h : Inside segment_size s.shared w s.pc values i) × (h.section ≡ at)
  Inside-of s i at w values stands (inl (same, out)) = absurd (clash (out i))
    where
      clash : is_inside (s.pc i) ≢ false
      clash e = let t : is_inside (s.pc i) ≡ true = ap is_inside stands in cc
  Inside-of s i at w values stands (inr (k, h)) = elim (Bool-cases (i == k)) [
    | inr other ↦ absurd (clash (h.others i other))
    | inl same ↦ at_k (sym ((==_iff i k).0 same)) h
  ]
    where
      clash : is_inside (s.pc i) ≢ false
      clash e = let t : is_inside (s.pc i) ≡ true = ap is_inside stands in cc

      at_k :
          {k : ℕ}
          → k ≡ i
          → Inside segment_size s.shared w s.pc values k
          → (h : Inside segment_size s.shared w s.pc values i) × (h.section ≡ at)
      at_k e h =
          let h' = subst (Inside segment_size s.shared w s.pc values) e h in
          let there : inside h'.section ≡ inside at = sym h'.stands ∙ stands in (h', cc)

  -- From where the caller stands, the call comes to its value and to the vector of the calls so far.
  at-to_come :
      {shared w : ShmVector T} {pc : ℕ → Pc T} {values : List (ℕ × Value T)} {i : ℕ}
      (at : Section T) (h : Inside segment_size shared w pc values i)
      → h.section ≡ at
      → complete_after (step_locked at shared) ≡ (h.value, w)
  at-to_come {shared = shared} at h e =
      complete-step_locked at shared ∙ (ap (λ a. complete a shared) (sym e) ∙ h.to_come)

  at-grows :
      {shared w : ShmVector T} {pc : ℕ → Pc T} {values : List (ℕ × Value T)} {i : ℕ}
      (at : Section T) (h : Inside segment_size shared w pc values i)
      → h.section ≡ at
      → IsRoomy segment_size shared
      → GrowsAfter segment_size shared (step_locked at shared)
  at-grows {shared = shared} at h e roomy =
      step_locked-Grows segment_size at shared roomy
        (subst (λ a. Grows segment_size a shared) e h.grows)

  moves-Inv :
      (s : System T) (i : ℕ) (at next : Section T) (w : ShmVector T)
      → s.pc i ≡ inside at
      → step_locked at s.shared ≡ goes next w
      → Inv segment_size v s
      → Inv segment_size v (record s { shared = w; pc = with_pc i (inside next) s.pc })
  moves-Inv s i at next w stands step h =
      let (held, e) = Inside-of s i at h.committed h.values stands h.holder in
      let (roomy, grows, same_lock) =
        subst (GrowsAfter segment_size s.shared) step (at-grows at held e h.roomy) in
      record {
        values = h.values;
        committed = h.committed;
        replayed = h.replayed;
        roomy = roomy;
        admitted =
            with_pc-all (λ j q. Admitted segment_size q) i (inside next) s.pc tt
              (λ j e. h.admitted j);
        given =
            with_pc-all (λ j q. Given q (latest j h.values)) i (inside next) s.pc tt
              (λ j e. h.given j);
        holder = inr (
          i,
          record {
            section = next;
            value = held.value;
            stands = with_pc-here i (inside next) s.pc;
            others = λ j e.
                subst (λ q. is_inside q ≡ false) (sym (with_pc-there i j (inside next) s.pc e))
                  (held.others j e);
            to_come = sym (ap complete_after step) ∙ at-to_come at held e;
            promised = held.promised;
            locked = same_lock ∙ held.locked;
            grows = grows;
          },
        );
      }

  leaves-Inv :
      (s : System T) (i : ℕ) (at : Section T) (r : Value T) (w : ShmVector T)
      → s.pc i ≡ inside at
      → step_locked at s.shared ≡ ends r w
      → Inv segment_size v s
      → Inv segment_size v (record s { shared = w; pc = with_pc i (resting (some r)) s.pc })
  leaves-Inv s i at r w stands step h =
      let (held, e) = Inside-of s i at h.committed h.values stands h.holder in
      let over : ◌≡◌ {A = Value T × ShmVector T} (r, w) (held.value, h.committed) =
        sym (ap complete_after step) ∙ at-to_come at held e in
      let given_i = held.promised ∙ ap some (sym (ap (λ q. q.0) over)) in
      record {
        values = h.values;
        committed = h.committed;
        replayed = h.replayed;
        roomy = subst (GrowsAfter segment_size s.shared) step (at-grows at held e h.roomy);
        admitted =
            with_pc-all (λ j q. Admitted segment_size q) i (resting (some r)) s.pc tt
              (λ j e. h.admitted j);
        given =
            with_pc-all (λ j q. Given q (latest j h.values)) i (resting (some r)) s.pc given_i
              (λ j e. h.given j);
        holder = inl (
          ap (λ q. q.1) over,
          with_pc-all (λ j q. is_inside q ≡ false) i (resting (some r)) s.pc refl held.others,
        );
      }

  pub Step-Inv : {s t : System T} → Step s t → Inv segment_size v s → Inv segment_size v t
  Step-Inv {s} (calls i op rests allowed) h =
      outside-Inv segment_size v s i (called op) (ap is_inside rests) refl
        (subst (λ b. IsAdmitted b op) h.roomy.segment allowed) (λ values g. tt) h
  Step-Inv {s} (skips i {op} here enough) h = skips-Inv segment_size v s i op here enough h
  Step-Inv {s} (tries i {op} here enough) h =
      outside-Inv segment_size v s i (spinning op) (ap is_inside here) refl
        (subst (Admitted segment_size) here (h.admitted i)) (λ values g. tt) h
  Step-Inv (waits i here busy) h = h
  Step-Inv {s} (acquires i {op} here free) h = acquires-Inv segment_size v s i op here free h
  Step-Inv {s} (moves i {at} {next} {v = w} here step) h = moves-Inv s i at next w here step h
  Step-Inv {s} (leaves i {at} {r} {v = w} here step) h = leaves-Inv s i at r w here step h
