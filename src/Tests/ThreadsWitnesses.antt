-- ===== src/Tests/ThreadsWitnesses.antt =====
-- Witnesses of the theorems on callers of one vector in shared memory that run at the same time: a
-- vector with segments of 8 bytes in a memory of 64 bytes.
use http.Base.{if◌then◌else◌, ◌==◌, ℕ, ◌≡◌, refl, true, false, Option, none, some, List, arith, ◌⊎◌}
use http.ShmVector.{ShmVector, out_of_range, acquired}
use http.ShmVector.Threads.{
  reserve_of, push_back_of, size_call, erase_at_of, Value, nothing, threw, erase_test, step_locked,
  ends, entry, call, is_enough, resting, System, with_pc, calls, skips, tries, waits, acquires,
  moves, leaves, Reach, start, later, initial, replay, latest,
}
use http.ShmVector.Threads.Room.{IsRoomy}
use http.ShmVector.Threads.Order.{is_inside, Given}
use http.ShmVector.Threads.Ends.{steps_left, run, run-call}
use http.ShmVector.Threads.Linear.{Reach-replay, Reach-one_inside, erase_at-stuck}

abbrev objects : ℕ → Option ℕ
objects a = if a == 4096 then some 7 else if a == 4104 then some 9 else none

abbrev two : ShmVector ℕ
two = record {
  segment_size_bytes = 8;
  capacity = 2;
  size = 2;
  memory_base = 4096;
  memory_total_bytes = 64;
  lock = false;
  memory = objects;
}

two-IsRoomy : IsRoomy 8 two
two-IsRoomy = record {
  segment = refl;
  positive = omega arith;
  narrow = omega arith;
  fits = omega arith;
  small = omega arith;
}

-- Caller 0 appends behind the spinlock and has grown the capacity; caller 1 waits for its turn, and
-- caller 2 finds the capacity of its reserve without it.
abbrev appending : (s : System ℕ) × Reach (initial two) s
unfolding step_locked with_pc is_enough entry
appending = (
  _,
  later
      (later
        (later
          (later
            (later
              (later
                (later
                  (later
                    (later (later start (calls 0 (push_back_of 5) refl tt))
                      (calls 1 size_call refl tt))
                    (tries 0 refl refl))
                  (acquires 0 refl refl))
                (tries 1 refl refl))
              (waits 1 refl refl))
            (moves 0 refl refl))
          (moves 0 refl refl))
        (calls 2 (reserve_of 3) refl (omega arith)))
      (skips 2 refl refl),
)

-- Caller 0 ends its call, and caller 1 gets the lock.
abbrev appended : (s : System ℕ) × Reach (initial two) s
unfolding step_locked with_pc is_enough entry
appended = (
  _,
  later
      (later
        (later (later (later (appending.1) (moves 0 refl refl)) (moves 0 refl refl))
          (leaves 0 refl refl))
        (acquires 1 refl refl))
      (moves 1 refl refl),
)

Reach-replay_example :
    (values : List (ℕ × Value ℕ)) × (w : ShmVector ℕ) × (replay two (appended.0).log
      ≡ some (values, w))
    × ((i : ℕ) → Given ((appended.0).pc i) (latest i values))
    × (((appended.0).shared ≡ w) ⊎ ((i : ℕ) × (is_inside ((appended.0).pc i) ≡ true)))
Reach-replay_example = Reach-replay 8 two (appended.0) two-IsRoomy (appended.1)

Reach-one_inside_example : is_inside ((appended.0).pc 0) ≡ (0 == 1)
unfolding with_pc appended
Reach-one_inside_example = Reach-one_inside 8 two (appended.0) 1 two-IsRoomy (appended.1) refl 0

-- Caller 0 is behind the spinlock with an index out of range.
abbrev erasing : (s : System ℕ) × Reach (initial two) s
unfolding step_locked with_pc is_enough entry
erasing = (
  _,
  later (later (later start (calls 0 (erase_at_of 2) refl tt)) (tries 0 refl refl))
      (acquires 0 refl refl),
)

abbrev after_throw : System ℕ
after_throw =
    let s = erasing.0 in record s { pc = with_pc 0 (resting (some (threw out_of_range))) s.pc }

-- After the exception caller 1 waits for the lock.
abbrev stuck : (t : System ℕ) × Reach after_throw t
unfolding step_locked with_pc is_enough entry
stuck = (
  _,
  later (later (later start (calls 1 size_call refl tt)) (tries 1 refl refl)) (waits 1 refl refl),
)

erase_at-stuck_example :
    (step_locked (erase_test 2 nothing) (acquired two) ≡ ends (threw out_of_range) (acquired two))
    × ((stuck.0).shared ≡ acquired two)
    × ((stuck.0).shared.lock ≡ true)
    × ((j : ℕ) → is_inside ((stuck.0).pc j) ≡ false)
unfolding with_pc entry erasing
erase_at-stuck_example =
    erase_at-stuck 8 two (erasing.0) (stuck.0) 0 2 nothing two-IsRoomy (erasing.1) refl
      (omega arith) (stuck.1)

run-call_example : run 7 (entry (erase_at_of 0)) (acquired two) ≡ call (erase_at_of 0) two
unfolding steps_left entry
run-call_example = run-call (erase_at_of 0) two 7 refl (omega arith)
