-- ===== src/ShmVector/Threads.antt =====
-- Callers of one SHMVector of src/SHMVector.hpp that run at the same time: each write to the members
-- and to the memory is a step of its own, and the steps of the callers come in any order.
-- The calls of ShmVector.antt are what a call does that runs alone.
pub mod Alone
pub mod Room
pub mod Order
pub mod Steps
pub mod Behind
pub mod Ends
pub mod Linear
use http.Base.{
  ℕ, zero, suc, ◌+◌, ◌-◌, ◌*◌, ◌%◌, ◌^◌, ◌<◌, ◌≡◌, Bool, true, false, Option, none, some, List, [],
  ◌∷◌, ltb, leb, ◌==◌, if◌then◌else◌,
}
use http.ShmVector.{
  ShmVector, ShmError, bad_alloc, out_of_range, Call, returned, thrown, spins, get_element_ptr,
  read, put, acquired, released, doubled, reserve, push_back, at, size_of, erase_at,
  get_next_element, write,
}

pub data Operation (T : Type 0) : Type 0 where
  reserve_of : ℕ → Operation T
  push_back_of : T → Operation T
  at_of : ℕ → Operation T
  size_call : Operation T
  erase_at_of : ℕ → Operation T
  get_next_call : Operation T

-- What a call gives to its caller.
pub data Value (T : Type 0) : Type 0 where
  nothing : Value T
  reference : ℕ → Value T
  count : ℕ → Value T
  element : Option T → Value T
  threw : ShmError → Value T

-- Where a caller stands behind the spinlock, with the local variables that are live there.
pub data Section (T : Type 0) : Type 0 where
  reserve_test : ℕ → Section T
  reserve_set : ℕ → Section T
  push_test : T → Section T
  push_grow : T → ℕ → Section T
  push_construct : T → Section T
  push_count : Section T
  at_test : ℕ → Section T
  size_read : Section T
  next_test : Section T
  erase_test : ℕ → Value T → Section T
  erase_destroy : ℕ → Value T → Section T
  shift_copy : ℕ → Value T → Section T
  shift_destroy : ℕ → Value T → Section T
  erase_count : Value T → Section T
  leaving : Value T → Section T

-- A step behind the spinlock: the caller goes on, or its call ends.
pub data Advance (T : Type 0) : Type 0 where
  goes : Section T → ShmVector T → Advance T
  ends : Value T → ShmVector T → Advance T

-- The lock is released by `leaving`; the exception of `eraseAt_unlocked` ends the call without it.
unfoldable pub step_locked : {T : Type 0} → Section T → ShmVector T → Advance T
unfolding write
step_locked (reserve_test n) v =
    if leb n v.capacity
    then goes (leaving nothing) v
    else if ltb v.memory_total_bytes (n * v.segment_size_bytes % 2 ^ 64)
    then goes (leaving (threw bad_alloc)) v
    else goes (reserve_set n) v
step_locked (reserve_set n) v = goes (leaving nothing) (record v { capacity = n })
step_locked (push_test x) v =
    if leb v.capacity v.size
    then (if ltb v.memory_total_bytes (doubled v.capacity * v.segment_size_bytes % 2 ^ 64)
        then goes (leaving (threw bad_alloc)) v
        else goes (push_grow x (doubled v.capacity)) v)
    else goes (push_construct x) v
step_locked (push_grow x n) v = goes (push_construct x) (record v { capacity = n })
step_locked (push_construct x) v = goes push_count (put v v.size (some x))
step_locked push_count v = goes (leaving nothing) (record v { size = suc v.size })
step_locked (at_test i) v =
    if leb v.size i
    then goes (leaving (threw out_of_range)) v
    else goes (leaving (reference (get_element_ptr v i))) v
step_locked size_read v = goes (leaving (count v.size)) v
step_locked next_test v =
    if v.size == 0
    then goes (leaving (threw out_of_range)) v
    else goes (erase_test 0 (element (read v (get_element_ptr v 0)))) v
step_locked (erase_test i r) v =
    if leb v.size i then ends (threw out_of_range) v else goes (erase_destroy i r) v
step_locked (erase_destroy i r) v = goes (shift_copy i r) (put v i none)
step_locked (shift_copy i r) v =
    if ltb i (v.size - 1)
    then goes (shift_destroy i r) (put v i (read v (get_element_ptr v (suc i))))
    else goes (erase_count r) v
step_locked (shift_destroy i r) v = goes (shift_copy (suc i) r) (put v (suc i) none)
step_locked (erase_count r) v = goes (leaving r) (record v { size = v.size - 1 })
step_locked (leaving r) v = ends r (released v)

-- The first step behind the spinlock.
unfoldable pub entry : {T : Type 0} → Operation T → Section T
entry (reserve_of n) = reserve_test n
entry (push_back_of x) = push_test x
entry (at_of i) = at_test i
entry size_call = size_read
entry (erase_at_of i) = erase_test i nothing
entry get_next_call = next_test

-- The test of `reserve` before the spinlock.
unfoldable pub is_enough : {T : Type 0} → Operation T → ShmVector T → Bool
is_enough (reserve_of n) v = leb n v.capacity
is_enough (push_back_of x) v = false
is_enough (at_of i) v = false
is_enough size_call v = false
is_enough (erase_at_of i) v = false
is_enough get_next_call v = false

-- Where a caller stands: between two calls, with the value of the last one; at the start of a call;
-- in the loop of the spinlock; behind it.
pub data Pc (T : Type 0) : Type 0 where
  resting : Option (Value T) → Pc T
  called : Operation T → Pc T
  spinning : Operation T → Pc T
  inside : Section T → Pc T

-- The callers by number. `log` are the calls in the order in which they take effect, the last one
-- first: when they get the lock, or when `reserve` finds enough capacity without it.
pub record System (T : Type 0) : Type 0 where
  pub shared : ShmVector T
  pub pc : ℕ → Pc T
  pub log : List (ℕ × Operation T)

unfoldable pub with_pc : {T : Type 0} → ℕ → Pc T → (ℕ → Pc T) → ℕ → Pc T
with_pc i p pc j = if j == i then p else pc j

-- A number of elements whose size in bytes does not wrap.
abbrev pub IsAdmitted : {T : Type 0} → ℕ → Operation T → Type 0
IsAdmitted segment_size (reserve_of n) = n * segment_size < 2 ^ 64
IsAdmitted segment_size op = Unit {0}

pub data Step {T : Type 0} (s : System T) : System T → Type 0 where
  calls :
      (i : ℕ) (op : Operation T) {o : Option (Value T)}
      → s.pc i ≡ resting o
      → IsAdmitted s.shared.segment_size_bytes op
      → Step s (record s { pc = with_pc i (called op) s.pc })
  skips :
      (i : ℕ) {op : Operation T}
      → s.pc i ≡ called op
      → is_enough op s.shared ≡ true
      → Step s (record s { pc = with_pc i (resting (some nothing)) s.pc; log = (i, op) ∷ s.log })
  tries :
      (i : ℕ) {op : Operation T}
      → s.pc i ≡ called op
      → is_enough op s.shared ≡ false
      → Step s (record s { pc = with_pc i (spinning op) s.pc })
  waits : (i : ℕ) {op : Operation T} → s.pc i ≡ spinning op → s.shared.lock ≡ true → Step s s
  acquires :
      (i : ℕ) {op : Operation T}
      → s.pc i ≡ spinning op
      → s.shared.lock ≡ false
      → Step s (record {
        shared = acquired s.shared;
        pc = with_pc i (inside (entry op)) s.pc;
        log = (i, op) ∷ s.log;
      })
  moves :
      (i : ℕ) {at : Section T} {next : Section T} {v : ShmVector T}
      → s.pc i ≡ inside at
      → step_locked at s.shared ≡ goes next v
      → Step s (record s { shared = v; pc = with_pc i (inside next) s.pc })
  leaves :
      (i : ℕ) {at : Section T} {r : Value T} {v : ShmVector T}
      → s.pc i ≡ inside at
      → step_locked at s.shared ≡ ends r v
      → Step s (record s { shared = v; pc = with_pc i (resting (some r)) s.pc })

pub data Reach {T : Type 0} (s : System T) : System T → Type 0 where
  start : Reach s s
  later : {t u : System T} → Reach s t → Step t u → Reach s u

abbrev pub initial : {T : Type 0} → ShmVector T → System T
initial v = record { shared = v; pc = λ i. resting none; log = [] }

-- The calls one after the other; `none` where one would spin for ever.
unfoldable pub outcome : {T A : Type 0} → (A → Value T) → Call T A → Option (Value T × ShmVector T)
outcome value (returned a w) = some (value a, w)
outcome value (thrown e w) = some (threw e, w)
outcome value (spins w) = none

unfoldable pub call : {T : Type 0} → Operation T → ShmVector T → Option (Value T × ShmVector T)
unfolding outcome reserve push_back at size_of erase_at get_next_element
call (reserve_of n) v = outcome (λ u. nothing) (reserve v n)
call (push_back_of x) v = outcome (λ u. nothing) (push_back v x)
call (at_of i) v = outcome reference (at v i)
call size_call v = outcome count (size_of v)
call (erase_at_of i) v = outcome (λ u. nothing) (erase_at v i)
call get_next_call v = outcome element (get_next_element v)

-- The values of the calls, the last one first, and the vector after them.
unfoldable pub replay :
    {T : Type 0} → ShmVector T → List (ℕ × Operation T) → Option (List (ℕ × Value T) × ShmVector T)
unfolding call
replay v [] = some ([], v)
replay v ((i, op) ∷ log) = elim (replay v log) [
  | none ↦ none
  | some (values, w) ↦ elim (call op w) [ none ↦ none | some (r, w') ↦ some ((i, r) ∷ values, w') ]
]

-- The last value of a caller.
abbrev pub latest : {T : Type 0} → ℕ → List (ℕ × Value T) → Option (Value T)
latest i [] = none
latest i ((j, r) ∷ values) = let rest = latest i values in if i == j then some r else rest
