-- ===== src/States/Tests.antt =====
-- state.c on a machine with four cpus and three states.
use seeker_scheduler.States.{demand_inc}
use seeker_scheduler.States.Reach.{Steps, start, next, informed, asked, reachable-Consistent}
use seeker_scheduler.Common.{
  ℕ, ◌≤◌, ◌<◌, ◌≡◌, ◌≢◌, refl, true, false, pos, ◌==◌, ltb, ◌&&◌, if◌then◌else◌, arith, count_in,
  for_up, ◌+ℤ◌, ◌-ℤ◌,
}
use seeker_scheduler.Kernel.{test_mask}
use seeker_scheduler.States.{Sys, seeker_cpufreq_inform}
use seeker_scheduler.States.Init.{init_cpu_states}
use seeker_scheduler.States.Init.Booking.{init-Consistent, layout_requests}
use seeker_scheduler.States.Invariant.{Consistent, inform-Consistent}

-- Nothing is set up yet; the user asks for states 1, 0 and (too high) 9.
abbrev pub fresh : Sys test_mask.Mask
fresh = record {
  states = λ i. record { state = 0; cpumask = λ c. false; cpus = pos 0; demand = pos 0 };
  total_states = 0;
  cur_cpu_state = λ i. 0;
  max_state_possible = λ i. 0;
  total_online_cpus = 4;
  low_state = pos 0;
  high_state = pos 0;
  mid_state = pos 0;
  base_state = pos 7;
  init_layout = λ i. if i == 0 then pos 1 else if i == 1 then pos 0 else pos 9;
  init_layout_length = 3;
  current_jiffies = λ i. 0;
}

-- The first cpu has two states, the others three.
abbrev pub two_or_three : ℕ → ℕ
two_or_three i = if i == 0 then 2 else 3

abbrev pub started : Sys test_mask.Mask
started = (init_cpu_states test_mask 100 two_or_three (pos 0) fresh).0

init-Consistent_example :
    Consistent test_mask started
    × (started.total_online_cpus ≡ 4)
    × ((init_cpu_states test_mask 100 two_or_three (pos 0) fresh).1
        ≡ layout_requests started.cur_cpu_state 4)
    × ((c : ℕ) → c < 4 → two_or_three c ≤ started.total_states)
init-Consistent_example =
    init-Consistent test_mask 100 two_or_three (pos 0) fresh 2 (omega arith) (omega arith)
      (omega arith)

-- The cpus of each state, and the cut base state.
started_cpus :
    ((started.states 0).cpus ≡ pos 2)
    × ((started.states 1).cpus ≡ pos 1)
    × ((started.states 2).cpus ≡ pos 1)
    × (started.base_state ≡ pos 2)
unfolding init_cpu_states for_up ◌+ℤ◌ ◌-ℤ◌
started_cpus = (refl, refl, refl, refl)

-- Two cpus, both in state 0 of two states.
abbrev pub pair_of_cpus : Sys test_mask.Mask
pair_of_cpus = record fresh {
  total_states = 2;
  total_online_cpus = 2;
  states = λ i. record {
    state = i;
    cpumask = λ c. i == 0 && ltb c 2;
    cpus = if i == 0 then pos 2 else pos 0;
    demand = pos 0;
  };
}

pub pair_of_cpus-Consistent : Consistent test_mask pair_of_cpus
unfolding count_in
pair_of_cpus-Consistent = record {
  counted = λ k h. ground arith;
  masked = λ k c h l. ground arith;
  ranged = λ c l. ground arith;
  fits = ground arith;
}

inform-Consistent_example :
    Consistent test_mask (seeker_cpufreq_inform test_mask 150 100 true 1 1 pair_of_cpus).0
    × ((seeker_cpufreq_inform test_mask 150 100 true 1 1 pair_of_cpus).0.cur_cpu_state 1 ≡ 1)
    × ((c : ℕ)
        → c ≢ 1
        → (seeker_cpufreq_inform test_mask 150 100 true 1 1 pair_of_cpus).0.cur_cpu_state c ≡ 0)
inform-Consistent_example =
    inform-Consistent test_mask 150 100 true 1 1 pair_of_cpus (omega arith) (omega arith)
      pair_of_cpus-Consistent

four_online : 3 < started.total_online_cpus
unfolding init_cpu_states for_up ◌+ℤ◌ ◌-ℤ◌
four_online = omega arith

three_states : 1 < started.total_states
unfolding init_cpu_states for_up ◌+ℤ◌ ◌-ℤ◌
three_states = omega arith

two_calls :
    Steps test_mask started
      (demand_inc 2 (seeker_cpufreq_inform test_mask 150 100 true 3 1 started).0)
two_calls = next (next start (informed 150 100 true 3 1 four_online three_states)) (asked 2)

-- Cpu 3 goes to state 1 and a task asks for state 2.
reachable-Consistent_example :
    Consistent test_mask (demand_inc 2 (seeker_cpufreq_inform test_mask 150 100 true 3 1 started).0)
reachable-Consistent_example =
    reachable-Consistent test_mask 100 two_or_three (pos 0) fresh
      (demand_inc 2 (seeker_cpufreq_inform test_mask 150 100 true 3 1 started).0) 2 (omega arith)
      (omega arith) (omega arith) two_calls
