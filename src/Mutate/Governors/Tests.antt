-- ===== src/Mutate/Governors/Tests.antt =====
-- The ondemand and the conservative mutator, and load.c, on two cpus: cpu 0 was idle, cpu 1 busy.
use seeker_scheduler.Common.{
  ℕ, ◌+◌, ◌-◌, ◌≡◌, ◌%◌, ◌^◌, refl, min, true, ltb, ◌==◌, if◌then◌else◌, arith,
}
use seeker_scheduler.Kernel.{test_mask}
use seeker_scheduler.Load.{get_cpu_load, get_cpu_load_lem, load_of_time}
use seeker_scheduler.States.Invariant.{Consistent}
use seeker_scheduler.States.Tests.{pair_of_cpus, pair_of_cpus-Consistent}
use seeker_scheduler.Mutate.{Env}
use seeker_scheduler.Mutate.Governors.{ondemand, conservative}
use seeker_scheduler.Mutate.Governors.Follow.{governors-Consistent, governors_follow}

abbrev yes_man : Env
yes_man = record { now = 5; hz = 100; log_open = true; accepts = λ c k. true }

-- Cpu 0's counter is about to wrap round, and does.
abbrev idle_ticks : ℕ → ℕ
idle_ticks c = if c == 0 then 2 ^ 32 + 50 else 10

abbrev last_idle : ℕ → ℕ
last_idle c = if c == 0 then 2 ^ 32 - 50 else 10

get_cpu_load_lem_example :
    ((get_cpu_load 100 idle_ticks 0 last_idle).0 ≡ load_of_time 100 100)
    × ((get_cpu_load 100 idle_ticks 0 last_idle).1 0 ≡ (2 ^ 32 + 50) % 2 ^ 32)
get_cpu_load_lem_example =
    get_cpu_load_lem 100 (2 ^ 32 - 50) 100 0 idle_ticks last_idle refl refl (omega arith)
      (omega arith)

governors-Consistent_example :
    Consistent test_mask (ondemand test_mask yes_man 100 idle_ticks (pair_of_cpus, last_idle)).0
    × Consistent test_mask
        (conservative test_mask yes_man 100 idle_ticks (pair_of_cpus, last_idle)).0
governors-Consistent_example =
    governors-Consistent test_mask yes_man 100 idle_ticks pair_of_cpus last_idle
      pair_of_cpus-Consistent

governors_follow_example :
    let load = (get_cpu_load 100 idle_ticks 1 last_idle).0 in
    ((ondemand test_mask yes_man 100 idle_ticks (pair_of_cpus, last_idle)).0.cur_cpu_state 1
      ≡ (if ltb 7 load then 1 else 0))
    × ((conservative test_mask yes_man 100 idle_ticks (pair_of_cpus, last_idle)).0.cur_cpu_state 1
        ≡ (if ltb 7 load then min 1 1 else 0))
governors_follow_example =
    governors_follow test_mask yes_man 100 idle_ticks pair_of_cpus last_idle pair_of_cpus-Consistent
      1 (λ c k. refl) (omega arith)
