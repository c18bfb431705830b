-- ===== src/Mutate/Dynamic/Run.antt =====
-- `mem_dynamic_prog` of Module/seeker-scheduler/mutate_dyn.c around `mck`.
pub mod Plan
pub mod Books
use seeker_scheduler.Common.{
  ℕ, suc, ◌+◌, ◌%◌, ◌^◌, Option, none, some, ◌==◌, if◌then◌else◌, ℤ, pos, ◌+ℤ◌, update, for_up,
}
use seeker_scheduler.Kernel.{Cpumask}
use seeker_scheduler.States.{Sys, demand_get}
use seeker_scheduler.Tasks.{get_tasks_load, get_cpu_tasks}
use seeker_scheduler.Mutate.{ProcInfo, wake_up_procs, retire_procs, Env, request_freq}
use seeker_scheduler.Mutate.Greedy.Run.{NewState, LogMutator, provide_at, commit}
use seeker_scheduler.Mutate.Dynamic.{delta_based_demand_transform, mck}

-- The arrays of the module, which it keeps from call to call, and the cpus' information.
pub record Arrays : Type 0 where
  pub info : ℕ → ProcInfo
  pub put_to_sleep : ℕ → ℕ
  pub cpu_awake_proxy : ℕ → ℕ
  pub new_cpu_state : ℕ → ℕ
  pub demand : ℕ → ℤ

-- total_cpus_req
unfoldable pub cpus_required : {M : Type 0} → (running : ℕ → ℕ) → Sys M → ℕ
unfolding get_tasks_load
cpus_required running s = let load = get_tasks_load running s in if load == 0 then 1 else load

-- Up to the choice of states.
pub plan : {M : Type 0} → (running : ℕ → ℕ) (delta : ℕ) → Sys M → Arrays → Arrays
unfolding cpus_required demand_get wake_up_procs retire_procs get_cpu_tasks mck
    delta_based_demand_transform
plan running delta s a =
    let n = s.total_online_cpus in
    let m = s.total_states in
    let total = cpus_required running s in
    let (info, put, proxy) =
      retire_procs (get_cpu_tasks running) total n
        (wake_up_procs total n a.info, a.put_to_sleep, a.cpu_awake_proxy) in
    let demand =
      delta_based_demand_transform m total delta s.cur_cpu_state proxy
        (λ j. demand_get j s +ℤ pos 1) in
    record {
      info = info;
      put_to_sleep = put;
      cpu_awake_proxy = proxy;
      new_cpu_state = mck total m delta demand s.cur_cpu_state proxy a.new_cpu_state;
      demand = demand;
    }

module _ (K : Cpumask) where
  pub place_round : Arrays → ℕ → (ℕ → NewState K.Mask) → ℕ → NewState K.Mask
  unfolding provide_at
  place_round a i new_states =
      if (a.info i).awake == 0 then new_states else provide_at K i (a.new_cpu_state i) new_states

  -- The new states, set up.
  pub place_awake : (n : ℕ) → Arrays → ℕ → NewState K.Mask
  unfolding place_round
  place_awake n a = for_up n (place_round a) (λ j. record { cpumask = K.none; cpus = pos 0 })

  module _ (env : Env) where
    -- A cpu's turn in the loop that changes the frequencies.
    pub turn : Arrays → ℕ → Sys K.Mask × (ℕ → ProcInfo) → Sys K.Mask × (ℕ → ProcInfo)
    unfolding request_freq
    turn a i (s, info) =
        let p = info i in
        let t = (if a.put_to_sleep i == 1 then request_freq K env i 0 s else s) in
        if p.awake == 0
        then (t, update info i (record p { sleep_time = (p.sleep_time + 1) % 2 ^ 32 }))
        else (
          if a.new_cpu_state i == t.cur_cpu_state i
              then t
              else request_freq K env i (a.new_cpu_state i) t,
          info,
        )

    pub turns : (n : ℕ) → Arrays → Sys K.Mask × (ℕ → ProcInfo) → Sys K.Mask × (ℕ → ProcInfo)
    unfolding turn
    turns n a si = for_up n (turn a) si

    -- The result is the state, the arrays, `interval_count`, and the entry that is put into the log.
    unfoldable pub mem_dynamic_prog :
        (running : ℕ → ℕ) (delta : ℕ)
        → Sys K.Mask × Arrays × ℕ
        → Sys K.Mask × Arrays × ℕ × Option LogMutator
    unfolding plan place_awake commit turns
    mem_dynamic_prog running delta (s, before, interval_count) =
        let n = s.total_online_cpus in
        let count = (interval_count + 1) % 2 ^ 64 in
        let a = plan running delta s before in
        let (t, info) = turns n a (commit K (place_awake n a) s, a.info) in
        (
          t,
          record a { info = info },
          count,
          (if env.log_open
              then some (record {
                interval = count;
                count = s.total_states;
                cpus_req = a.demand;
                cpus_given =
                    for_up n (λ i g. update g (t.cur_cpu_state i) (suc (g (t.cur_cpu_state i))))
                      (λ j. 0);
              })
              else none),
        )
