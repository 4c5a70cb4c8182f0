-- ===== src/ShmVector/Threads/Steps.antt =====
-- The steps of a caller up to the spinlock keep the order of the calls.
use http.Base.{ℕ, ◌≡◌, ◌≢◌, refl, sym, ◌∙◌, ap, subst, inl, inr, true, false, some, List, ◌∷◌}
use http.ShmVector.{ShmVector, acquired}
use http.ShmVector.Threads.{
  Operation, Value, nothing, entry, is_enough, call, Pc, resting, called, spinning, inside, System,
  with_pc, replay, latest,
}
use http.ShmVector.Threads.Alone.{complete, call-complete}
use http.ShmVector.Threads.Room.{call-is_enough, entry-Grows}
use http.ShmVector.Threads.Order.{
  is_inside, Given, Admitted, Holder, Inv, with_pc-all, with_pc-here, with_pc-there, latest-there,
  latest-here, Holder-keeps, Holder-capacity,
}

module _ {T : Type 0} (segment_size : ℕ) (v : ShmVector T) where
  -- A caller goes to another place outside; nothing takes effect.
  pub outside-Inv :
      (s : System T) (i : ℕ) (p : Pc T)
      → is_inside (s.pc i) ≡ false
      → is_inside p ≡ false
      → Admitted segment_size p
      → ((values : List (ℕ × Value T))
          → Given (s.pc i) (latest i values)
          → Given p (latest i values))
      → Inv segment_size v s
      → Inv segment_size v (record s { pc = with_pc i p s.pc })
  outside-Inv s i p out out' a g h = record {
    values = h.values;
    committed = h.committed;
    replayed = h.replayed;
    roomy = h.roomy;
    admitted = with_pc-all (λ j q. Admitted segment_size q) i p s.pc a (λ j e. h.admitted j);
    given =
        with_pc-all (λ j q. Given q (latest j h.values)) i p s.pc (g h.values (h.given i))
          (λ j e. h.given j);
    holder = Holder-keeps i p out out' (λ j e. refl) h.holder;
  }

  -- A call takes effect with a value.
  replay-more :
      (i : ℕ) (op : Operation T) (log : List (ℕ × Operation T)) (values : List (ℕ × Value T))
      (w w' : ShmVector T) (r : Value T)
      → replay v log ≡ some (values, w)
      → call op w ≡ some (r, w')
      → replay v ((i, op) ∷ log) ≡ some ((i, r) ∷ values, w')
  unfolding replay
  replay-more i op log values w w' r before here = rw (before, replay) (rw (here, replay) refl)

  pub skips-Inv :
      (s : System T) (i : ℕ) (op : Operation T)
      → s.pc i ≡ called op
      → is_enough op s.shared ≡ true
      → Inv segment_size v s
      → Inv segment_size v
          (record s { pc = with_pc i (resting (some nothing)) s.pc; log = (i, op) ∷ s.log })
  skips-Inv s i op at enough h = record {
    values = (i, nothing) ∷ h.values;
    committed = h.committed;
    replayed =
        replay-more i op s.log h.values h.committed h.committed nothing h.replayed
          (call-is_enough op s.shared h.committed enough (Holder-capacity h.roomy h.holder));
    roomy = h.roomy;
    admitted =
        with_pc-all (λ j q. Admitted segment_size q) i (resting (some nothing)) s.pc tt
          (λ j e. h.admitted j);
    given =
        with_pc-all (λ j q. Given q (latest j ((i, nothing) ∷ h.values))) i (resting (some nothing))
          s.pc (latest-here i nothing h.values)
          (λ j e. subst (Given (s.pc j)) (sym (latest-there i j nothing h.values e)) (h.given j));
    holder =
        Holder-keeps i (resting (some nothing)) (ap is_inside at) refl
          (λ j e. latest-there i j nothing h.values e) h.holder;
  }

  pub acquires-Inv :
      (s : System T) (i : ℕ) (op : Operation T)
      → s.pc i ≡ spinning op
      → s.shared.lock ≡ false
      → Inv segment_size v s
      → Inv segment_size v (record {
        shared = acquired s.shared;
        pc = with_pc i (inside (entry op)) s.pc;
        log = (i, op) ∷ s.log;
      })
  acquires-Inv s i op at free h = by_holder h.holder
    where
      r : Value T
      r = (complete (entry op) (acquired s.shared)).0

      w : ShmVector T
      w = (complete (entry op) (acquired s.shared)).1

      by_holder :
          Holder segment_size s.shared h.committed s.pc h.values
          → Inv segment_size v (record {
            shared = acquired s.shared;
            pc = with_pc i (inside (entry op)) s.pc;
            log = (i, op) ∷ s.log;
          })
      by_holder (inr (k, held)) = absurd (busy (sym held.locked ∙ free))
        where
          busy : true ≢ false
          busy e = cc
      by_holder (inl (same, out)) = record {
        values = (i, r) ∷ h.values;
        committed = w;
        replayed =
            replay-more i op s.log h.values h.committed w r h.replayed
              (ap (call op) (sym same) ∙ call-complete op s.shared free);
        roomy = record {
          segment = h.roomy.segment;
          positive = h.roomy.positive;
          narrow = h.roomy.narrow;
          fits = h.roomy.fits;
          small = h.roomy.small;
        };
        admitted =
            with_pc-all (λ j q. Admitted segment_size q) i (inside (entry op)) s.pc tt
              (λ j e. h.admitted j);
        given =
            with_pc-all (λ j q. Given q (latest j ((i, r) ∷ h.values))) i (inside (entry op)) s.pc
              tt (λ j e. subst (Given (s.pc j)) (sym (latest-there i j r h.values e)) (h.given j));
        holder = inr (
          i,
          record {
            section = entry op;
            value = r;
            stands = with_pc-here i (inside (entry op)) s.pc;
            others = λ j e.
                subst (λ q. is_inside q ≡ false)
                  (sym (with_pc-there i j (inside (entry op)) s.pc e)) (out j);
            to_come = refl;
            promised = latest-here i r h.values;
            locked = refl;
            grows =
                entry-Grows segment_size op (acquired s.shared)
                  (subst (Admitted segment_size) at (h.admitted i));
          },
        );
      }
