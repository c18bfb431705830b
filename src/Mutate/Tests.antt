-- ===== src/Mutate/Tests.antt =====
-- mutate_common.c on four cpus of which two are awake.
use seeker_scheduler.Common.{none}
use seeker_scheduler.Mutate.Timer.{Timer, Moment, ondemand_mutator, init_mutator, exit_mutator}
use seeker_scheduler.Mutate.Timer.Runs.{awake_info, runs, Due, ticks, Mutated, runs_lem}
use seeker_scheduler.States.Tests.{pair_of_cpus, pair_of_cpus-Consistent}
use seeker_scheduler.Kernel.{test_mask}
use seeker_scheduler.States.{Sys}
use seeker_scheduler.Search.Tests.{three_cpus}
use seeker_scheduler.Cpufreq.Users.{Users}
use seeker_scheduler.Cpufreq.Freq.{set_freq, driver_answer}
use seeker_scheduler.Cpufreq.Tests.{two_states}
use seeker_scheduler.Mutate.Request.{scheduler_inform, set_freq-request_freq}
use seeker_scheduler.Mutate.{Env, request_freq}
use seeker_scheduler.Common.{[], ◌∷◌, some, true, false, pos}
use seeker_scheduler.Common.{
  ℕ, zero, suc, ◌≤◌, ◌<◌, ◌≡◌, ◌≢◌, ◌⊎◌, refl, max, min, ◌==◌, if◌then◌else◌, for_up, count_in,
  arith, [], ◌∷◌, some, true, false, pos,
}
use seeker_scheduler.Mutate.{
  ProcInfo, wake_up_procs, retire_procs, awake_total, wake_rounds, wake_scan, wake_one,
}
use seeker_scheduler.Mutate.Wake.{
  is_awake, asleep, AllSane, awake_count, WakeFate, wake_up_procs_lem,
}
use seeker_scheduler.Mutate.Retire.{Fate}
use seeker_scheduler.Mutate.Proxy.{ListsAwake, retire_procs_lem, retire_procs_early}

-- Cpus 1 and 2 are awake; cpu 0 has slept for 5 rounds and cpu 3 for 2.
abbrev four_cpus : ℕ → ProcInfo
four_cpus i =
    if i == 1
    then record { sleep_time = 0; awake = 1; awake_time = 4 }
    else if i == 2
    then record { sleep_time = 0; awake = 1; awake_time = 1 }
    else record { sleep_time = if i == 0 then 5 else 2; awake = 0; awake_time = 0 }

-- Cpu 1 runs a task.
abbrev one_task : ℕ → ℕ
one_task i = if i == 1 then 1 else 0

four_cpus-Sane : AllSane four_cpus 4
four_cpus-Sane zero h = asleep refl (omega arith) (omega arith)
four_cpus-Sane (suc zero) h = is_awake refl refl
four_cpus-Sane (suc (suc zero)) h = is_awake refl refl
four_cpus-Sane (suc (suc (suc zero))) h = asleep refl (omega arith) (omega arith)
four_cpus-Sane (suc (suc (suc (suc n)))) h = absurd (omega arith)

two_awake : awake_count four_cpus 4 ≡ 2
unfolding count_in
two_awake = refl

wake_up_procs_lem_example :
    let info = wake_up_procs 3 4 four_cpus in
    AllSane info 4
    × (awake_count info 4 ≡ max (awake_count four_cpus 4) (min 3 4))
    × ((i : ℕ) → WakeFate 3 4 four_cpus info i)
    × ((i j : ℕ)
        → i < 4
        → j < 4
        → (four_cpus i).awake ≡ 0
        → (info i).awake ≡ 1
        → (info j).awake ≡ 0
        → (four_cpus i).sleep_time ≤ (four_cpus j).sleep_time)
    × (3 ≤ awake_count four_cpus 4 → info ≡ four_cpus)
wake_up_procs_lem_example = wake_up_procs_lem 3 4 four_cpus four_cpus-Sane (omega arith)

-- The cpu that has slept least is woken.
wakes_cpu_3 : (wake_up_procs 3 4 four_cpus 3).awake ≡ 1
unfolding wake_up_procs for_up awake_total wake_rounds wake_scan wake_one
wakes_cpu_3 = refl

retire_procs_lem_example :
    let (info, put, proxy) = retire_procs one_task 1 4 (four_cpus, λ i. 0, λ i. 0) in
    (1 ≤ awake_count info 4)
    × ((i : ℕ) → Fate one_task 1 4 four_cpus info put i)
    × ((awake_count info 4 ≡ 1) ⊎ ((i : ℕ) → i < 4 → (info i).awake ≡ 1 → one_task i ≢ 0))
    × ListsAwake 4 info proxy
retire_procs_lem_example =
    retire_procs_lem one_task 1 4 four_cpus (λ i. 0) (λ i. 0) four_cpus-Sane
      (omega (arith, two_awake))

retire_procs_early_run :
    retire_procs one_task 2 4 (four_cpus, λ i. 0, λ i. 9) ≡ (four_cpus, λ i. 0, λ i. 9)
retire_procs_early_run =
    retire_procs_early one_task 2 4 four_cpus (λ i. 0) (λ i. 9) four_cpus-Sane
      (omega (arith, two_awake))

abbrev willing : Env
willing = record { now = 0; hz = 100; log_open = false; accepts = λ c k. true }

-- The scheduler as the only user of seeker-cpufreq.
abbrev scheduler_only : Users (Sys test_mask.Mask)
scheduler_only = record {
  user_head = 3 ∷ [];
  user = λ u. record { inform = some (scheduler_inform test_mask willing); user_id = 0 };
  current_highest_id = 1;
}

set_freq-request_freq_example :
    (set_freq 2 (λ second p q locking. pos 0) scheduler_only 1 1 (two_states, three_cpus)).1
    ≡ request_freq test_mask willing 1 1 three_cpus
unfolding set_freq driver_answer
set_freq-request_freq_example =
    set_freq-request_freq test_mask willing 2 (λ second p q locking. pos 0) scheduler_only 3 1 1
      two_states three_cpus refl refl refl

-- A timer of 1 ms at 100 ticks a second, less than a tick.
abbrev stopped_timer : Timer test_mask.Mask
stopped_timer = record {
  timer_started = false;
  work_due = none;
  interval_jiffies = 0;
  change_interval = 1;
  interval_count = 0;
  sys = pair_of_cpus;
  arrays = record {
    info = four_cpus;
    put_to_sleep = λ i. 0;
    cpu_awake_proxy = λ i. 0;
    new_cpu_state = λ i. 0;
    demand = λ j. pos 0;
  };
  prev_idle_time = λ i. 0;
}

abbrev quiet : Moment
quiet = record {
  env = willing;
  running = λ c. 0;
  before = λ j. pos 0;
  total_time = 100;
  idle = λ c. 100;
}

runs_lem_example :
    let t = init_mutator 2 100 ondemand_mutator stopped_timer in
    let u = runs test_mask 1 ondemand_mutator (quiet ∷ quiet ∷ []) t in
    ((i : ℕ) → i < 2 → t.arrays.info i ≡ awake_info)
    × (t.sys ≡ pair_of_cpus)
    × Due test_mask 1 (ticks test_mask 1 100 stopped_timer) u
    × Mutated test_mask 1 ondemand_mutator (quiet ∷ quiet ∷ []) t u
    × (exit_mutator u ≡ record u { timer_started = false; work_due = none })
runs_lem_example =
    runs_lem test_mask 1 2 100 ondemand_mutator (quiet ∷ quiet ∷ []) stopped_timer (λ e. cc)
      (λ e. cc) pair_of_cpus-Consistent
