-- ===== src/ShmVector/Threads/Order.antt =====
-- The callers against the calls one after the other, in the order in which they take effect.
use http.Base.{
  ℕ, ◌≤◌, ◌≡◌, ◌≢◌, refl, sym, ◌∙◌, ap, subst, ◌⊎◌, inl, inr, Bool, true, false, Option, some, List,
  ◌∷◌, arith, ◌==◌, ==_iff, ==_refl, Bool-cases,
}
use http.ShmVector.{ShmVector}
use http.ShmVector.Threads.{
  Value, Section, IsAdmitted, Pc, resting, called, spinning, inside, System, with_pc, replay,
  latest,
}
use http.ShmVector.Threads.Alone.{complete}
use http.ShmVector.Threads.Room.{IsRoomy, Grows, complete-capacity}

module _ {T : Type 0} where
  abbrev pub is_inside : Pc T → Bool
  is_inside (inside s) = true
  is_inside p = false

  -- What a caller between two calls was given.
  abbrev pub Given : Pc T → Option (Value T) → Type 0
  Given (resting o) latest_value = latest_value ≡ o
  Given p latest_value = Unit {0}

  abbrev pub Admitted : ℕ → Pc T → Type 0
  Admitted segment_size (called op) = IsAdmitted segment_size op
  Admitted segment_size (spinning op) = IsAdmitted segment_size op
  Admitted segment_size p = Unit {0}

  -- One caller is behind the spinlock, and its call comes to `w` and to its last value.
  pub record Inside (segment_size : ℕ) (shared w : ShmVector T) (pc : ℕ → Pc T)
      (values : List (ℕ × Value T)) (i : ℕ) : Type 0 where
    pub section : Section T
    pub value : Value T
    pub stands : pc i ≡ inside section
    pub others : (j : ℕ) → (j == i) ≡ false → is_inside (pc j) ≡ false
    pub to_come : complete section shared ≡ (value, w)
    pub promised : latest i values ≡ some value
    pub locked : shared.lock ≡ true
    pub grows : Grows segment_size section shared

  -- Nobody is behind the spinlock.
  abbrev pub Outside : ShmVector T → ShmVector T → (ℕ → Pc T) → Type 0
  Outside shared w pc = (shared ≡ w) × ((i : ℕ) → is_inside (pc i) ≡ false)

  abbrev pub Holder : ℕ → ShmVector T → ShmVector T → (ℕ → Pc T) → List (ℕ × Value T) → Type 0
  Holder segment_size shared w pc values =
      Outside shared w pc ⊎ ((i : ℕ) × Inside segment_size shared w pc values i)

  pub record Inv (segment_size : ℕ) (v : ShmVector T) (s : System T) : Type 0 where
    pub values : List (ℕ × Value T)
    pub committed : ShmVector T
    pub replayed : replay v s.log ≡ some (values, committed)
    pub roomy : IsRoomy segment_size s.shared
    pub admitted : (i : ℕ) → Admitted segment_size (s.pc i)
    pub given : (i : ℕ) → Given (s.pc i) (latest i values)
    pub holder : Holder segment_size s.shared committed s.pc values

  -- What holds of the new place of one caller and of the others holds of all.
  pub with_pc-all :
      (P : ℕ → Pc T → Type 0) (i : ℕ) (p : Pc T) (pc : ℕ → Pc T)
      → P i p
      → ((j : ℕ) → (j == i) ≡ false → P j (pc j))
      → (j : ℕ) → P j (with_pc i p pc j)
  unfolding with_pc
  with_pc-all P i p pc here there j = elim (Bool-cases (j == i)) [
    | inl same ↦ rw same (subst (λ k. P k p) (sym ((==_iff j i).0 same)) here)
    | inr other ↦ rw other (there j other)
  ]

  pub with_pc-here : (i : ℕ) (p : Pc T) (pc : ℕ → Pc T) → with_pc i p pc i ≡ p
  unfolding with_pc
  with_pc-here i p pc = rw (==_refl i) refl

  pub with_pc-there :
      (i j : ℕ) (p : Pc T) (pc : ℕ → Pc T) → (j == i) ≡ false → with_pc i p pc j ≡ pc j
  unfolding with_pc
  with_pc-there i j p pc other = rw other refl

  pub latest-there :
      (i j : ℕ) (r : Value T) (values : List (ℕ × Value T))
      → (j == i) ≡ false
      → latest j ((i, r) ∷ values) ≡ latest j values
  latest-there i j r values other = rw other refl

  pub latest-here :
      (i : ℕ) (r : Value T) (values : List (ℕ × Value T)) → latest i ((i, r) ∷ values) ≡ some r
  latest-here i r values = rw (==_refl i) refl

  -- A caller that is not behind the spinlock is not the one that is.
  pub apart :
      (pc : ℕ → Pc T) (i j : ℕ) (s : Section T)
      → pc j ≡ inside s
      → is_inside (pc i) ≡ false
      → (j == i) ≡ false
  apart pc i j s stands out = elim (Bool-cases (j == i)) [
    | inr other ↦ other
    | inl same ↦
        absurd (clash (subst (λ k. is_inside (pc k) ≡ false) (sym ((==_iff j i).0 same)) out))
  ]
    where
      clash : is_inside (pc j) ≢ false
      clash h = let t : is_inside (pc j) ≡ true = ap is_inside stands in cc

  -- Another caller moves outside: the one behind the spinlock stays as it is.
  Inside-keeps :
      {segment_size : ℕ} {shared w : ShmVector T} {pc : ℕ → Pc T}
      {values values' : List (ℕ × Value T)} {k : ℕ} (i : ℕ) (p : Pc T)
      → is_inside (pc i) ≡ false
      → is_inside p ≡ false
      → ((j : ℕ) → (j == i) ≡ false → latest j values' ≡ latest j values)
      → Inside segment_size shared w pc values k
      → Inside segment_size shared w (with_pc i p pc) values' k
  Inside-keeps {pc = pc} {k = k} i p out out' same h =
      let other = apart pc i k h.section h.stands out in
      record {
        section = h.section;
        value = h.value;
        stands = with_pc-there i k p pc other ∙ h.stands;
        others = λ j ne.
            with_pc-all (λ n q. (n == k) ≡ false → is_inside q ≡ false) i p pc (λ e. out')
              (λ n e. h.others n) j ne;
        to_come = h.to_come;
        promised = same k other ∙ h.promised;
        locked = h.locked;
        grows = h.grows;
      }

  Outside-keeps :
      (shared w : ShmVector T) (pc : ℕ → Pc T) (i : ℕ) (p : Pc T)
      → is_inside p ≡ false
      → Outside shared w pc
      → Outside shared w (with_pc i p pc)
  Outside-keeps shared w pc i p out' (same, out) =
      (same, with_pc-all (λ n q. is_inside q ≡ false) i p pc out' (λ n e. out n))

  pub Holder-keeps :
      {segment_size : ℕ} {shared w : ShmVector T} {pc : ℕ → Pc T}
      {values values' : List (ℕ × Value T)} (i : ℕ) (p : Pc T)
      → is_inside (pc i) ≡ false
      → is_inside p ≡ false
      → ((j : ℕ) → (j == i) ≡ false → latest j values' ≡ latest j values)
      → Holder segment_size shared w pc values
      → Holder segment_size shared w (with_pc i p pc) values'
  Holder-keeps {shared = shared} {w = w} {pc = pc} i p out out' same (inl h) =
      inl (Outside-keeps shared w pc i p out' h)
  Holder-keeps i p out out' same (inr (k, h)) = inr (k, Inside-keeps i p out out' same h)

  -- The capacity that can be read without the lock is at most the one after the call behind it.
  pub Holder-capacity :
      {segment_size : ℕ} {shared w : ShmVector T} {pc : ℕ → Pc T} {values : List (ℕ × Value T)}
      → IsRoomy segment_size shared
      → Holder segment_size shared w pc values
      → shared.capacity ≤ w.capacity
  Holder-capacity r (inl (same, out)) = let e = ap (λ u. u.capacity) same in omega (arith, e)
  Holder-capacity {segment_size} {shared} r (inr (k, h)) =
      subst (λ q. shared.capacity ≤ q.1.capacity) h.to_come
        (complete-capacity segment_size h.section shared r h.grows)
