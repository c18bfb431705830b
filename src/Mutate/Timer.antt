-- ===== src/Mutate/Timer.antt =====
-- The timer of Module/seeker-scheduler/mutate_common.c: `init_mutator`, `state_change` and
-- `exit_mutator`. The kernel's delayed work is modelled by when it is due, if it is scheduled. `delta` is not below 0.
pub mod Runs
use seeker_scheduler.Common.{
  ℕ, ◌*◌, ◌/◌, Bool, true, false, Option, none, some, List, [], ◌∷◌, ltb, if◌then◌else◌, ℤ, pos,
  update, for_up,
}
use seeker_scheduler.Kernel.{Cpumask}
use seeker_scheduler.States.{Sys}
use seeker_scheduler.Mutate.{ProcInfo, Env}
use seeker_scheduler.Mutate.Governors.{ondemand, conservative}
use seeker_scheduler.Mutate.Greedy.Run.{LogMutator, greedy_delta}
use seeker_scheduler.Mutate.Dynamic.Run.{Arrays, mem_dynamic_prog}

-- mutation_method
pub data MutationMethod : Type 0 where
  greedy_delta_mutator mem_dynamic_prog_mutator ondemand_mutator conservative_mutator static_mutator
        unknown_mutator :
      MutationMethod

-- `work_due` is the interval after which `state_work` runs. Beside the timer stands what the mutators work
-- on: the cpus' information is in `arrays`, and `prev_idle_time` is that of load.c.
pub record Timer (M : Type 0) : Type 0 where
  pub timer_started : Bool
  pub work_due : Option ℕ
  pub interval_jiffies : ℕ
  pub change_interval : ℕ
  pub interval_count : ℕ
  pub sys : Sys M
  pub arrays : Arrays
  pub prev_idle_time : ℕ → ℕ

unfoldable pub wake_all : (nr_cpus : ℕ) → (ℕ → ProcInfo) → ℕ → ProcInfo
wake_all nr_cpus info =
    for_up nr_cpus (λ i f. update f i (record { sleep_time = 0; awake = 1; awake_time = 1 })) info

-- What a run of the work meets: the surroundings, the lengths of the run queues, what stands before the
-- array in winner_round, the interval in ticks and the idle counters.
pub record Moment : Type 0 where
  pub env : Env
  pub running : ℕ → ℕ
  pub before : ℕ → ℤ
  pub total_time : ℕ
  pub idle : ℕ → ℕ

module _ {M : Type 0} where
  unfoldable pub start_timer : (nr_cpus hz : ℕ) → Timer M → Timer M
  unfolding wake_all
  start_timer nr_cpus hz t =
      let jiffies = t.change_interval * hz / 1000 in
      let short = ltb jiffies 1 in
      let interval = (if short then 1 else jiffies) in
      record t {
        timer_started = true;
        work_due = some interval;
        interval_jiffies = interval;
        change_interval = if short then 1000 / hz else t.change_interval;
        arrays = record t.arrays { info = wake_all nr_cpus t.arrays.info };
      }

  unfoldable pub init_mutator : (nr_cpus hz : ℕ) → MutationMethod → Timer M → Timer M
  unfolding start_timer
  init_mutator nr_cpus hz static_mutator t = t
  init_mutator nr_cpus hz other t = start_timer nr_cpus hz t

  unfoldable pub exit_mutator : Timer M → Timer M
  exit_mutator t =
      if t.timer_started then record t { timer_started = false; work_due = none } else t

module _ (K : Cpumask) (delta : ℕ) where
  -- The switch over mutation_method, and the entry that is put into the log.
  unfoldable pub mutate : MutationMethod → Moment → Timer K.Mask → Timer K.Mask × Option LogMutator
  mutate ondemand_mutator x t =
      let (s, prev) = ondemand K x.env x.total_time x.idle (t.sys, t.prev_idle_time) in
      (record t { sys = s; prev_idle_time = prev }, none)
  mutate conservative_mutator x t =
      let (s, prev) = conservative K x.env x.total_time x.idle (t.sys, t.prev_idle_time) in
      (record t { sys = s; prev_idle_time = prev }, none)
  mutate greedy_delta_mutator x t =
      let (s, info, count, entry) =
        greedy_delta K x.env x.running x.before (pos delta)
          (t.sys, t.arrays.info, t.interval_count) in
      (
        record t { sys = s; arrays = record t.arrays { info = info }; interval_count = count },
        entry,
      )
  mutate mem_dynamic_prog_mutator x t =
      let (s, arrays, count, entry) =
        mem_dynamic_prog K x.env x.running delta (t.sys, t.arrays, t.interval_count) in
      (record t { sys = s; arrays = arrays; interval_count = count }, entry)
  mutate static_mutator x t = (record t { timer_started = false }, none)
  mutate unknown_mutator x t = (record t { timer_started = false }, none)

  -- `state_work` runs.
  unfoldable pub state_change :
      MutationMethod → Moment → Timer K.Mask → Timer K.Mask × Option LogMutator
  unfolding mutate
  state_change method x t =
      let (u, entry) = mutate method x t in
      (record u { work_due = if u.timer_started then some u.interval_jiffies else none }, entry)
