-- ===== src/Cpu.antt =====
-- class CPU of src/CPU.cpp: the processors that the process and its threads may run on. The macros
-- on sets of processors and the system calls are parameters.
pub mod Affinity
use http.Base.{ℕ, zero, Bool, true, false, List, [], ◌∷◌}
use http.Base.Int.{ℤ, pos, negsuc}

-- `cpu_zero` and `cpu_set` are the macros, `cpu_isset` tells what a set holds; the system calls
-- return their value and the system after them.
pub record CpuSystem (CpuSet Thread S : Type 0) : Type 0 where
  pub cpu_zero : CpuSet → CpuSet
  pub cpu_set : ℕ → CpuSet → CpuSet
  pub cpu_isset : ℕ → CpuSet → Bool
  pub getpid : S → ℕ
  pub sched_setaffinity : ℕ → CpuSet → S → ℤ × S
  pub pthread_setaffinity_np : Thread → CpuSet → S → ℤ × S

-- The members; `cpuset` is not initialised.
pub record Cpu (CpuSet : Type 0) : Type 0 where
  pub cpus : List ℕ
  pub cpuset : CpuSet

pub data CpuError : Type 0 where
  process_error thread_error : CpuError

-- How an operation ends: it returns, also after a message, or ends the process after a message.
pub data Applied (CpuSet S : Type 0) : Type 0 where
  applied : Cpu CpuSet → S → Applied CpuSet S
  reported exited : CpuError → Cpu CpuSet → S → Applied CpuSet S

unfoldable pub set_cpu_config : {CpuSet : Type 0} → List ℕ → Cpu CpuSet → Cpu CpuSet
set_cpu_config cpus cpu = record cpu { cpus = cpus }

-- The test of the result of `sched_setaffinity`.
abbrev pub process_applied : {CpuSet S : Type 0} → Cpu CpuSet → ℤ × S → Applied CpuSet S
process_applied cpu (negsuc zero, s) = exited process_error cpu s
process_applied cpu (rc, s) = applied cpu s

-- The test of the result of `pthread_setaffinity_np`.
abbrev pub thread_applied : {CpuSet S : Type 0} → Cpu CpuSet → ℤ × S → Applied CpuSet S
thread_applied cpu (negsuc zero, s) = reported thread_error cpu s
thread_applied cpu (rc, s) = applied cpu s

module _ {CpuSet Thread S : Type 0} where
  -- The loop over the processors.
  unfoldable pub set_cpus : CpuSystem CpuSet Thread S → List ℕ → CpuSet → CpuSet
  set_cpus sys [] set = set
  set_cpus sys (cpu_id ∷ cpus) set = set_cpus sys cpus (sys.cpu_set cpu_id set)

  unfoldable pub apply_cpu_config_process :
      CpuSystem CpuSet Thread S → Cpu CpuSet → S → Applied CpuSet S
  unfolding set_cpus
  apply_cpu_config_process sys cpu s =
      let set = set_cpus sys cpu.cpus (sys.cpu_zero cpu.cpuset) in
      process_applied (record cpu { cpuset = set }) (sys.sched_setaffinity (sys.getpid s) set s)

  unfoldable pub apply_cpu_config_thread :
      CpuSystem CpuSet Thread S → Thread → Cpu CpuSet → S → Applied CpuSet S
  apply_cpu_config_thread sys thread cpu s =
      thread_applied cpu (sys.pthread_setaffinity_np thread cpu.cpuset s)
