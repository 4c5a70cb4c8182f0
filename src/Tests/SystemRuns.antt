-- ===== src/Tests/SystemRuns.antt =====
-- Runs of the operations on processors, events and backends.
use http.Base.{
  ℕ, suc, ◌+◌, ◌*◌, ◌≡◌, refl, Bool, true, false, ◌||◌, some, [], ◌∷◌, Bytes, codes, ◌==◌,
  if◌then◌else◌,
}
use http.Base.Int.{pos, negsuc}
use http.Cpu.{
  exited, process_error, CpuSystem, Cpu, applied, set_cpu_config, apply_cpu_config_process,
  apply_cpu_config_thread,
}
use http.Event.{Event, gave, bad_function_call, register_event, check_event, call_callback}
use http.Event
use http.Backends.{Memory, Handler, Jni, java_process}

-- A system on which a set of processors is a test, whose state counts the calls, and which fails on
-- a set without processor 0.
abbrev tests : CpuSystem (ℕ → Bool) (Unit {0}) ℕ
tests = record {
  cpu_zero = λ set c. false;
  cpu_set = λ i set c. (c == i) || set c;
  cpu_isset = λ c set. set c;
  getpid = λ s. 17;
  sched_setaffinity = λ pid set s. if set 0 then (pos 0, suc s) else (negsuc 0, suc s);
  pthread_setaffinity_np = λ thread set s. if set 0 then (pos 0, suc s) else (pos 22, suc s);
}

abbrev all_of_them : Cpu (ℕ → Bool)
all_of_them = record { cpus = []; cpuset = λ c. true }

process_is_set :
    apply_cpu_config_process tests (set_cpu_config (2 ∷ 1 ∷ []) all_of_them) 5
    ≡ exited process_error
        (record { cpus = 2 ∷ 1 ∷ []; cpuset = λ c. (c == 1) || ((c == 2) || false) })
        6
unfolding apply_cpu_config_process set_cpu_config
process_is_set = refl

no_thread_error :
    apply_cpu_config_thread tests tt (record { cpus = []; cpuset = λ c. false }) 5
    ≡ applied (record { cpus = []; cpuset = λ c. false }) 6
unfolding apply_cpu_config_thread
no_thread_error = refl

empty_event : check_event {S = ℕ} Event.construct 5 ≡ bad_function_call 5
unfolding Event.construct check_event
empty_event = refl

registered_event :
    check_event (register_event (λ s. (s == 5, s)) (λ s. suc s) Event.construct) 5 ≡ gave true 5
unfolding register_event check_event
registered_event = refl

registered_callback :
    call_callback (register_event (λ s. (s == 5, s)) (λ s. suc s) Event.construct) 5 ≡ gave tt 6
unfolding register_event call_callback
registered_callback = refl

-- A machine with one class and one method that returns the text "ok"; the state counts the messages.
abbrev answering : Jni (Unit {0}) (Unit {0}) Bytes ℕ
answering = record {
  find_class = λ name s. (some tt, s);
  get_static_method_id = λ class name signature s. (some tt, s);
  new_string_utf = λ text s. (text, s);
  call_static_object_method = λ class method text s. (some (codes "ok"), s);
  release_string_utf_chars = λ text s. s;
  exception_describe = λ s. suc s;
  get_string_utf_chars = λ text s. (text, s);
}

abbrev blank : Memory
blank = record { bytes = λ a. 0; lengths = λ a. 0 }

abbrev waiting : Handler (Unit {0})
waiting = record { req_payload_string = codes "{}"; backend = tt }

java_answer :
    let m =
      (java_process (λ i. 100 * i) (λ i k. 1000 + 16 * i + k) answering waiting 2 (0, blank)).1 in
    (m.bytes 200 ≡ 111) × (m.bytes 201 ≡ 107) × (m.bytes 202 ≡ 0) × (m.lengths 1039 ≡ 2)
unfolding java_process
java_answer = (refl, refl, refl, refl)
