-- ===== src/Mutate/Greedy/Run.antt =====
-- `greedy_delta` of Module/seeker-scheduler/mutate_gd.c around its auction. The module's arrays are
-- filled anew by each call.
pub mod Fill
pub mod Books
pub mod Switch
use seeker_scheduler.Common.{
  ℕ, zero, suc, ◌+◌, ◌-◌, ◌*◌, ◌%◌, ◌^◌, Bool, true, false, not, ◌&&◌, ◌||◌, Option, none, some,
  ltb, leb, ◌==◌, if◌then◌else◌, ℤ, pos, ◌+ℤ◌, update, for_up,
}
use seeker_scheduler.Kernel.{Cpumask}
use seeker_scheduler.States.{Sys, demand_get, demand_clear}
use seeker_scheduler.Tasks.{get_tasks_load}
use seeker_scheduler.Mutate.{ProcInfo, wake_up_procs, Env, request_freq}
use seeker_scheduler.Mutate.Demand.{transition_direction, procs}
use seeker_scheduler.Mutate.Greedy.{Auction, auction}

-- The loop after the auction: cpus that do not sleep are selected, while there is load for them.
pub fill_round : (load : ℕ) → (ℕ → ProcInfo) → ℕ → Auction → Auction
fill_round load info i a =
    if leb load a.total_selected_cpus || a.selected_cpus i == 0 || not ((info i).sleep_time == 0)
    then a
    else record a {
      total_selected_cpus = suc a.total_selected_cpus;
      selected_cpus = update a.selected_cpus i 0;
    }

pub fill_selected : (n load : ℕ) → (ℕ → ProcInfo) → Auction → Auction
unfolding fill_round
fill_selected n load info a = for_up n (fill_round load info) a

-- The fields of `new_states` that are used.
pub record NewState (M : Type 0) : Type 0 where
  pub cpumask : M
  pub cpus : ℤ

pub record Provision (M : Type 0) : Type 0 where
  pub new_states : ℕ → NewState M
  pub total_provided_cpus : ℕ

-- log_mutator_t
pub record LogMutator : Type 0 where
  pub interval : ℕ
  pub count : ℕ
  pub cpus_req : ℕ → ℤ
  pub cpus_given : ℕ → ℕ

module _ (K : Cpumask) where
  open K use {Mask, set, none as no_cpus}

  unfoldable pub provide_at : (cpu state : ℕ) → (ℕ → NewState Mask) → ℕ → NewState Mask
  provide_at cpu state new_states =
      let d = new_states state in
      update new_states state (record { cpumask = set cpu d.cpumask; cpus = d.cpus +ℤ pos 1 })

  unfoldable pub provide_round : Auction → ℕ → Provision Mask → Provision Mask
  unfolding provide_at
  provide_round a i p = if a.selected_cpus i == 1 then p else record {
    new_states = provide_at i (a.new_cpu_state i) p.new_states;
    total_provided_cpus = suc p.total_provided_cpus;
  }

  unfoldable pub provide : (n : ℕ) → Auction → Provision Mask
  unfolding provide_round
  provide n a = for_up n (provide_round a) (record {
    new_states = λ j. record { cpumask = no_cpus; cpus = pos 0 };
    total_provided_cpus = 0;
  })

  -- If no cpu is provided, cpu 0 is, in state 0.
  pub provide_one : Auction × Provision Mask → Auction × Provision Mask
  unfolding provide_at
  provide_one (a, p) =
      if p.total_provided_cpus == 0
      then (
        record a {
          new_cpu_state = update a.new_cpu_state 0 0;
          selected_cpus = update a.selected_cpus 0 0;
        },
        record p { new_states = provide_at 0 0 p.new_states },
      )
      else (a, p)

  -- The critical section.
  unfoldable pub commit : (ℕ → NewState Mask) → Sys Mask → Sys Mask
  unfolding demand_clear
  commit new_states s =
      for_up s.total_states
        (λ j t. demand_clear j (record t {
          states = update t.states j (record (t.states j) {
            cpumask = (new_states j).cpumask;
            cpus = (new_states j).cpus;
          });
        }))
        s

  module _ (env : Env) where
    -- A cpu's turn in the loop that carries out the auction's result.
    pub switch_cpu : Auction → ℕ → Sys Mask × (ℕ → ProcInfo) → Sys Mask × (ℕ → ProcInfo)
    unfolding request_freq
    switch_cpu a i (s, info) =
        let p = info i in
        if a.selected_cpus i == 0
        then (
          if a.new_cpu_state i == s.cur_cpu_state i
              then s
              else request_freq K env i (a.new_cpu_state i) s,
          update info i (record p { sleep_time = 0; awake = 1 }),
        )
        else if p.awake == 0
        then (s, update info i (record p { sleep_time = (p.sleep_time + 1) % 2 ^ 32 }))
        else (
          if s.cur_cpu_state i == 0 then s else request_freq K env i 0 s,
          update info i (record p { awake = 0; sleep_time = 1 }),
        )

    pub carry_out : (n : ℕ) → Auction → Sys Mask × (ℕ → ProcInfo) → Sys Mask × (ℕ → ProcInfo)
    unfolding switch_cpu
    carry_out n a si = for_up n (switch_cpu a) si

    -- `running` are the lengths of the run queues; see `winner_round` for `before`. The result is the
    -- state, the cpus' information, `interval_count`, and the entry that is put into the log.
    unfoldable pub greedy_delta :
        (running : ℕ → ℕ) (before : ℕ → ℤ) (delta : ℤ)
        → Sys Mask × (ℕ → ProcInfo) × ℕ
        → Sys Mask × (ℕ → ProcInfo) × ℕ × Option LogMutator
    unfolding get_tasks_load demand_get procs wake_up_procs transition_direction auction
        fill_selected provide provide_one commit carry_out
    greedy_delta running before delta (s, info, interval_count) =
        let n = s.total_online_cpus in
        let count = (interval_count + 1) % 2 ^ 64 in
        let load = get_tasks_load running s in
        let total = for_up s.total_states (λ j t. t +ℤ demand_get j s) (pos 0) in
        let demand = λ (j : ℕ). procs (demand_get j s) total (pos load) in
        let woken = wake_up_procs load n info in
        let direction = transition_direction s.total_states n demand s.cur_cpu_state woken in
        let sold = auction s.total_states n load total direction s.cur_cpu_state before (record {
          demand = demand;
          selected_cpus = λ i. 1;
          new_cpu_state = s.cur_cpu_state;
          delta = delta;
          total_demand = pos load;
          total_selected_cpus = 0;
          stopped = false;
        }) in
        let filled = fill_selected n load woken sold in
        let (a, p) = provide_one (filled, provide n filled) in
        let (t, info') = carry_out n a (commit p.new_states s, woken) in
        (
          t,
          info',
          count,
          (if env.log_open
              then some (record {
                interval = count;
                count = s.total_states;
                cpus_req = sold.demand;
                cpus_given =
                    for_up n (λ i g. update g (t.cur_cpu_state i) (suc (g (t.cur_cpu_state i))))
                      (λ j. 0);
              })
              else none),
        )
