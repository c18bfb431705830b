-- ===== src/Mutate/Dynamic/Tests.antt =====
-- mem_dynamic_prog with three cpus and three states.
use seeker_scheduler.Common.{
  ℕ, suc, ◌+◌, ◌%◌, ◌^◌, ◌≤◌, ◌<◌, ◌≡◌, ◌≢◌, refl, ◌⊎◌, Bool, true, false, ◌&&◌, ◌==◌, ltb,
  if◌then◌else◌, ℤ, pos, ◌+ℤ◌, ◌≤ℤ◌, for_up, count_in, arith,
}
use seeker_scheduler.Kernel.{test_mask}
use seeker_scheduler.Search.Scan.{first_down, first_up}
use seeker_scheduler.States.{Sys, demand_get}
use seeker_scheduler.Tasks.{get_tasks_load}
use seeker_scheduler.Mutate.{Env}
use seeker_scheduler.Mutate.Wake.{is_awake, awake_count}
use seeker_scheduler.Mutate.Dynamic.{
  transform_round, can_win, delta_based_demand_transform, mck, weight,
}
use seeker_scheduler.Mutate.Dynamic.Optimal.{cost, gain, mck_optimal}
use seeker_scheduler.Mutate.Dynamic.Transform.{Nearest, transform_round_lem}
use seeker_scheduler.Mutate.Dynamic.Handed.{
  winnable, total_demand, delta_based_demand_transform_lem,
}
use seeker_scheduler.Mutate.Dynamic.Run.{Arrays, cpus_required, plan, place_awake, mem_dynamic_prog}
use seeker_scheduler.Mutate.Dynamic.Run.Plan.{Planned, plan-Planned}
use seeker_scheduler.Mutate.Dynamic.Run.Books.{place_of, commit-place, mem_dynamic_prog_lem}
use seeker_scheduler.Mutate.Greedy.Run.{commit}

-- Cpu 0 in state 0, and so on; state 2 is in the most demand.
abbrev own_state : ℕ → ℕ
own_state c = c

abbrev wanted : ℕ → ℕ
wanted k = if k == 2 then 9 else suc k

abbrev wanted_int : ℕ → ℤ
wanted_int k = pos (wanted k)

-- Cpu 1 goes from state 1 to state 2, and the delta is used up.
mck_run :
    let t = mck 2 3 1 wanted_int own_state own_state (λ c. 7) in (t 0 ≡ 0) × (t 1 ≡ 2) × (t 2 ≡ 7)
unfolding mck for_up first_down ◌+ℤ◌
mck_run = (refl, refl, refl)

mck_optimal_example :
    let t = mck 2 3 1 wanted_int own_state own_state (λ c. 7) in
    let wt = weight own_state own_state in
    ((i : ℕ) → i < 2 → t i < 3)
    × (cost wt (λ i. t i) 2 ≤ 1)
    × ((s : ℕ → ℕ)
        → ((i : ℕ) → i < 2 → s i < 3)
        → cost wt s 2 ≤ 1
        → gain wanted s 2 ≤ gain wanted (λ i. t i) 2)
    × ((c : ℕ) → ((i : ℕ) → i < 2 → i ≢ c) → t c ≡ 7)
mck_optimal_example =
    mck_optimal 2 3 1 wanted_int wanted own_state own_state (λ c. 7) (λ j l. refl)
      (λ j l. ground arith) (λ i l. omega arith) (λ i j l h e. omega arith)

-- One cpu, in state 0, does not reach state 2.
abbrev zeros : ℕ → ℕ
zeros c = 0

delta_based_demand_transform_lem_example :
    let wins = can_win 1 1 zeros zeros in
    let after = delta_based_demand_transform 3 1 1 zeros zeros wanted_int in
    (winnable wins after 3 ≡ total_demand wanted_int 3)
    × ((i : ℕ) → wanted_int i ≤ℤ after i)
    × ((i : ℕ) → wins i ≡ false → after i ≡ wanted_int i)
delta_based_demand_transform_lem_example =
    delta_based_demand_transform_lem 3 1 1 zeros zeros wanted_int (λ i l. omega arith) 0
      (omega arith) (omega arith)

handed_on : (delta_based_demand_transform 3 1 1 zeros zeros wanted_int 1) ≡ pos 11
unfolding delta_based_demand_transform for_up first_down first_up ◌+ℤ◌
handed_on = refl

-- State 1 lies between two states that can win.
abbrev ends_win : ℕ → Bool
ends_win k = if k == 1 then false else true

transform_round_lem_example :
    ((ends_win 1 ≡ true) × (transform_round 3 ends_win 1 wanted_int ≡ wanted_int))
    ⊎ ((ends_win 1 ≡ false)
        × (friend : ℕ) × Nearest 3 ends_win wanted_int 1 friend
        × ((i : ℕ)
            → transform_round 3 ends_win 1 wanted_int i
              ≡ (if friend == i then wanted_int i +ℤ wanted_int 1 else wanted_int i)))
transform_round_lem_example =
    transform_round_lem 3 ends_win wanted_int 1 0 (omega arith) (omega arith) refl

abbrev trio : Sys test_mask.Mask
trio = record {
  states =
      λ k. record { state = k; cpumask = λ c. k == c && ltb c 3; cpus = pos 1; demand = pos k };
  total_states = 3;
  cur_cpu_state = own_state;
  max_state_possible = λ c. 3;
  total_online_cpus = 3;
  low_state = pos 0;
  high_state = pos 2;
  mid_state = pos 1;
  base_state = pos 0;
  init_layout = λ c. pos 0;
  init_layout_length = 3;
  current_jiffies = λ c. 0;
}

abbrev all_awake : Arrays
all_awake = record {
  info = λ c. record { sleep_time = 0; awake = 1; awake_time = 1 };
  put_to_sleep = λ c. 0;
  cpu_awake_proxy = λ c. 0;
  new_cpu_state = λ c. 0;
  demand = λ k. pos 0;
}

abbrev one_task : ℕ → ℕ
one_task c = if c == 2 then 1 else 0

one_required : cpus_required one_task trio < awake_count all_awake.info 3
unfolding cpus_required get_tasks_load for_up count_in
one_required = omega arith

no_negative : (j : ℕ) → j < 3 → pos 0 ≤ℤ demand_get j trio
unfolding demand_get
no_negative j l = omega arith

plan-Planned_example :
    Planned 3 3 (cpus_required one_task trio) 1 own_state (plan one_task 1 trio all_awake)
plan-Planned_example =
    plan-Planned one_task 1 trio all_awake (λ c l. is_awake refl refl) (omega arith) one_required
      no_negative (λ c l. l)

commit-place_run :
    let t = commit test_mask (place_awake test_mask 3 all_awake) trio in
    ((t.states 0).cpus ≡ pos (count_in (place_of all_awake) 3 1))
    × ((t.states 0).demand ≡ pos 0)
    × ((c : ℕ) → c < 64 → (t.states 0).cpumask c ≡ (ltb c 3 && place_of all_awake c == 1))
    × (t.cur_cpu_state ≡ own_state)
commit-place_run = commit-place test_mask all_awake 3 trio 0 (omega arith) (omega arith)

abbrev obliging : Env
obliging = record { now = 0; hz = 100; log_open = false; accepts = λ c k. true }

mem_dynamic_prog_lem_example :
    let (t, after, count, entry) =
      mem_dynamic_prog test_mask obliging one_task 1 (trio, all_awake, 0) in
    let p = plan one_task 1 trio all_awake in
    (t.cur_cpu_state 0 ≡ (
      if (p.info 0).awake == 0 then if p.put_to_sleep 0 == 1 then 0 else 0 else p.new_cpu_state 0))
    × ((p.info 0).awake ≡ 0 → (after.info 0).sleep_time ≡ ((p.info 0).sleep_time + 1) % 2 ^ 32)
mem_dynamic_prog_lem_example =
    mem_dynamic_prog_lem test_mask obliging one_task 1 trio all_awake 0 0 (λ c k. refl)
      (omega arith)
