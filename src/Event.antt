-- ===== src/Event.antt =====
-- class Event of lib/event/Event.cpp: a test and what to do when it holds. The two functions work
-- on the state of the program.
use http.Base.{◌≡◌, refl, Bool, Option, none, some}

-- The members; `none` is a function object that is empty.
pub record Event (S : Type 0) : Type 0 where
  pub check_function_ref : Option (S → Bool × S)
  pub callback_function_ref : Option (S → S)

-- What a call of a function object gives.
pub data Called (A S : Type 0) : Type 0 where
  gave : A → S → Called A S
  bad_function_call : S → Called A S

module _ {S : Type 0} where
  unfoldable pub construct : Event S
  construct = record { check_function_ref = none; callback_function_ref = none }

  unfoldable pub register_event : (S → Bool × S) → (S → S) → Event S → Event S
  register_event check callback e = record {
    check_function_ref = some check;
    callback_function_ref = some callback;
  }

  unfoldable pub check_event : Event S → S → Called Bool S
  check_event e s = elim e.check_function_ref [
    | none ↦ bad_function_call s
    | some check ↦ let (b, t) = check s in gave b t
  ]

  unfoldable pub call_callback : Event S → S → Called (Unit {0}) S
  call_callback e s = elim e.callback_function_ref [
    | none ↦ bad_function_call s
    | some callback ↦ gave tt (callback s)
  ]

  -- Of two registrations the second one counts.
  register_event-last :
      (check check' : S → Bool × S) (callback callback' : S → S) (e : Event S)
      → register_event check' callback' (register_event check callback e)
        ≡ register_event check' callback' e
  unfolding register_event
  register_event-last check check' callback callback' e = refl
