-- ===== src/States.antt =====
-- Module/seeker-scheduler/state.c: the performance states, which cpus run in each, and the demand
-- for each. The functions run under `states_seq_lock`, so each is one step.
pub mod Init
pub mod Invariant
pub mod Counts
pub mod Reach
pub mod Tests
use seeker_scheduler.Common.{
  ℕ, zero, suc, ◌+◌, ◌-◌, ◌*◌, ◌/◌, ◌%◌, ◌^◌, Bool, true, false, Option, none, some, List, [], ◌∷◌,
  ◌++◌, ltb, leb, ◌==◌, if◌then◌else◌, ℤ, pos, negsuc, pos_part, ◌+ℤ◌, ◌-ℤ◌, ltb_ℤ, leb_ℤ, eqb_ℤ,
  update, for_up,
}
use seeker_scheduler.Kernel.{Cpumask}

-- struct state_desc
pub record StateDesc (M : Type 0) : Type 0 where
  pub state : ℕ
  pub cpumask : M
  pub cpus : ℤ
  pub demand : ℤ

-- log_state_t
pub record LogState : Type 0 where
  pub cpu : ℕ
  pub state : ℕ
  pub residency_time : ℕ

-- The variables of state.c, and those of main.c that it shares.
pub record Sys (M : Type 0) : Type 0 where
  pub states : ℕ → StateDesc M
  pub total_states : ℕ
  pub cur_cpu_state : ℕ → ℕ
  pub max_state_possible : ℕ → ℕ
  pub total_online_cpus : ℕ
  pub low_state : ℤ
  pub high_state : ℤ
  pub mid_state : ℤ
  pub base_state : ℤ
  pub init_layout : ℕ → ℤ
  pub init_layout_length : ℕ
  pub current_jiffies : ℕ → ℕ

module _ {M : Type 0} where
  set_demand : ℤ → StateDesc M → StateDesc M
  set_demand d r = record r { demand = d }

  unfoldable pub demand_inc : ℕ → Sys M → Sys M
  unfolding set_demand
  demand_inc state s =
      let d = s.states state in
      record s { states = update s.states state (set_demand (d.demand +ℤ pos 1) d) }

  pub demand_dec : ℕ → Sys M → Sys M
  unfolding set_demand
  demand_dec state s =
      let d = s.states state in
      record s { states = update s.states state (set_demand (d.demand -ℤ pos 1) d) }

  unfoldable pub demand_get : ℕ → Sys M → ℤ
  demand_get state s = (s.states state).demand

  unfoldable pub demand_clear : ℕ → Sys M → Sys M
  unfolding set_demand
  demand_clear state s = record s {
    states = update s.states state (set_demand (pos 0) (s.states state));
  }

  -- `log_cpu_state` at time `now`, with `hz` ticks a second. `log_open` tells whether `get_log` gives
  -- a block; the entry that is then put into the log is returned. `jiffies` has 64 bits.
  unfoldable pub log_cpu_state :
      (now hz : ℕ) (log_open : Bool) → ℕ → Sys M → Sys M × Option LogState
  log_cpu_state now hz log_open cpu s = if now == s.current_jiffies cpu then (s, none) else (
    record s { current_jiffies = update s.current_jiffies cpu now },
    (if log_open then some entry else none),
  )
    where
      entry : LogState
      entry = record {
        cpu = cpu;
        state = s.cur_cpu_state cpu;
        residency_time = (now + 2 ^ 64 - s.current_jiffies cpu) % 2 ^ 64 * 1000 % 2 ^ 64 / hz;
      }

  -- The work item that logs all cpus.
  pub state_logger : (now hz : ℕ) (log_open : Bool) → Sys M → Sys M × List LogState
  unfolding log_cpu_state
  state_logger now hz log_open s =
      for_up s.total_online_cpus
        (λ i (t, es).
          let (t', e) = log_cpu_state now hz log_open i t in
          (t', es ++ elim e [ none ↦ [] | some x ↦ x ∷ [] ]))
        (s, [])

module _ (K : Cpumask) where
  open K use {Mask, set, clear}

  add_cpu : ℕ → StateDesc Mask → StateDesc Mask
  add_cpu cpu d = record d { cpumask = set cpu d.cpumask; cpus = d.cpus +ℤ pos 1 }

  drop_cpu : ℕ → StateDesc Mask → StateDesc Mask
  drop_cpu cpu d = record d { cpumask = clear cpu d.cpumask; cpus = d.cpus -ℤ pos 1 }

  -- The critical section of `seeker_cpufreq_inform`: `cpu` moves to `state`.
  move_cpu : (cpu state : ℕ) → Sys Mask → Sys Mask
  unfolding add_cpu drop_cpu
  move_cpu cpu state s =
      let arrived = update s.states state (add_cpu cpu (s.states state)) in
      let old = s.cur_cpu_state cpu in
      record s {
        states = update arrived old (drop_cpu cpu (arrived old));
        cur_cpu_state = update s.cur_cpu_state cpu state;
      }

  unfoldable pub seeker_cpufreq_inform :
      (now hz : ℕ) (log_open : Bool) (cpu state : ℕ) → Sys Mask → Sys Mask × Option LogState
  unfolding move_cpu
  seeker_cpufreq_inform now hz log_open cpu state s =
      let moved = (if s.cur_cpu_state cpu == state then s else move_cpu cpu state s) in
      let (logged, e) = log_cpu_state now hz log_open cpu moved in
      (record logged { cur_cpu_state = update logged.cur_cpu_state cpu state }, e)
