-- ===== src/Cpu/Affinity.antt =====
-- Which processors the system is told.
use http.Base.{ℕ, ◌<◌, ◌≡◌, refl, ◌∙◌, ap, Bool, true, false, ◌||◌, List, [], ◌∷◌, ◌==◌}
use http.Base.Int.{pos}
use http.Cpu.{
  CpuSystem, Cpu, applied, set_cpu_config, set_cpus, process_applied, apply_cpu_config_process,
  thread_applied, apply_cpu_config_thread,
}

abbrev pub is_in : ℕ → List ℕ → Bool
is_in c [] = false
is_in c (i ∷ cpus) = (c == i) || is_in c cpus

abbrev pub AreBelow : ℕ → List ℕ → Type 0
AreBelow n [] = Unit {0}
AreBelow n (i ∷ cpus) = (i < n) × AreBelow n cpus

or_swap : (a b c : Bool) → a || (b || c) ≡ (b || a) || c
or_swap true true c = refl
or_swap true false c = refl
or_swap false true c = refl
or_swap false false c = refl

or_false : (a : Bool) → a || false ≡ a
or_false true = refl
or_false false = refl

module _ {CpuSet Thread S : Type 0} where
  -- The macros as documented: a set holds the processors below 1024 that were put into it.
  pub record IsCpuSets (sys : CpuSystem CpuSet Thread S) : Type 0 where
    pub empty : (c : ℕ) (set : CpuSet) → sys.cpu_isset c (sys.cpu_zero set) ≡ false
    pub added :
        (c i : ℕ) (set : CpuSet)
        → i < 1024
        → sys.cpu_isset c (sys.cpu_set i set) ≡ (c == i) || sys.cpu_isset c set

  set_cpus-is_in :
      (sys : CpuSystem CpuSet Thread S) (cpus : List ℕ) (set : CpuSet) (c : ℕ)
      → IsCpuSets sys
      → AreBelow 1024 cpus
      → sys.cpu_isset c (set_cpus sys cpus set) ≡ is_in c cpus || sys.cpu_isset c set
  unfolding set_cpus
  set_cpus-is_in sys [] set c laws small = refl
  set_cpus-is_in sys (i ∷ cpus) set c laws (here, small) =
      set_cpus-is_in sys cpus (sys.cpu_set i set) c laws small
      ∙ (ap (λ b. is_in c cpus || b) (laws.added c i set here)
          ∙ or_swap (is_in c cpus) (c == i) (sys.cpu_isset c set))

  -- With the documented macros, applyCPUConfigProcess after setCPUConfig hands the system, for the
  -- own process, a set that holds exactly the processors of the configuration, whatever was set
  -- before, keeps that set, and ends as the result of the system call says.
  pub apply_cpu_config_process-exact :
      (sys : CpuSystem CpuSet Thread S) (cpus : List ℕ) (cpu : Cpu CpuSet) (s : S)
      → IsCpuSets sys
      → AreBelow 1024 cpus
      → (set : CpuSet) × ((c : ℕ) → sys.cpu_isset c set ≡ is_in c cpus)
        × (apply_cpu_config_process sys (set_cpu_config cpus cpu) s
            ≡ process_applied
                (record { cpus = cpus; cpuset = set })
                (sys.sched_setaffinity (sys.getpid s) set s))
  unfolding apply_cpu_config_process set_cpu_config
  apply_cpu_config_process-exact sys cpus cpu s laws small =
      let none_yet = sys.cpu_zero cpu.cpuset in
      (
        set_cpus sys cpus none_yet,
        λ c.
            set_cpus-is_in sys cpus none_yet c laws small
            ∙ (ap (λ b. is_in c cpus || b) (laws.empty c cpu.cpuset) ∙ or_false (is_in c cpus)),
        refl,
      )

  -- An error number of pthread_setaffinity_np is not reported.
  apply_cpu_config_thread-silent :
      (sys : CpuSystem CpuSet Thread S) (thread : Thread) (cpu : Cpu CpuSet) (s t : S) (n : ℕ)
      → sys.pthread_setaffinity_np thread cpu.cpuset s ≡ (pos n, t)
      → apply_cpu_config_thread sys thread cpu s ≡ applied cpu t
  unfolding apply_cpu_config_thread
  apply_cpu_config_thread-silent sys thread cpu s t n result = ap (thread_applied cpu) result
