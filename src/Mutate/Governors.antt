-- ===== src/Mutate/Governors.antt =====
-- Module/seeker-scheduler/mutate_od.c and mutate_cv.c: each cpu's state by its own load.
pub mod Follow
mod Tests
use seeker_scheduler.Common.{ℕ, ◌+◌, ◌-◌, ltb, ◌==◌, if◌then◌else◌, for_up}
use seeker_scheduler.Kernel.{Cpumask}
use seeker_scheduler.States.{Sys}
use seeker_scheduler.Load.{get_cpu_load}
use seeker_scheduler.Mutate.{Env, request_freq}

-- LOAD_0_875
abbrev pub load_0_875 : ℕ
load_0_875 = 7

-- The new state for a load and the current state.
abbrev pub ondemand_state : (total_states load cur : ℕ) → ℕ
ondemand_state total_states load cur = if ltb load_0_875 load then total_states - 1 else 0

abbrev pub conservative_state : (total_states load cur : ℕ) → ℕ
conservative_state total_states load cur =
    if ltb load_0_875 load
    then if cur == (total_states - 1) then total_states - 1 else cur + 1
    else if cur == 0
    then 0
    else cur - 1

module _ (K : Cpumask) (env : Env) (total_time : ℕ) (idle : ℕ → ℕ) where
  -- A round of either mutator's loop; beside the state, `prev_idle_time` of load.c.
  pub govern_cpu :
      (pick : (total_states load cur : ℕ) → ℕ) → ℕ → Sys K.Mask × (ℕ → ℕ) → Sys K.Mask × (ℕ → ℕ)
  govern_cpu pick i (s, prev) =
      let (load, prev') = get_cpu_load total_time idle i prev in
      let new = pick s.total_states load (s.cur_cpu_state i) in
      (if s.cur_cpu_state i == new then s else request_freq K env i new s, prev')

  pub govern :
      (pick : (total_states load cur : ℕ) → ℕ) → Sys K.Mask × (ℕ → ℕ) → Sys K.Mask × (ℕ → ℕ)
  unfolding govern_cpu
  govern pick (s, prev) = for_up s.total_online_cpus (govern_cpu pick) (s, prev)

  pub ondemand : Sys K.Mask × (ℕ → ℕ) → Sys K.Mask × (ℕ → ℕ)
  unfolding govern
  ondemand sp = govern ondemand_state sp

  pub conservative : Sys K.Mask × (ℕ → ℕ) → Sys K.Mask × (ℕ → ℕ)
  unfolding govern
  conservative sp = govern conservative_state sp
