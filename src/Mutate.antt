-- ===== src/Mutate.antt =====
-- Module/seeker-scheduler/mutate_common.c and the mutators: which cpus are awake, and in which state
-- each runs, decided anew every interval.
pub mod Wake
pub mod Retire
pub mod Proxy
pub mod Demand
pub mod Greedy
pub mod Dynamic
pub mod Request
pub mod Timer
pub mod Governors
mod Tests
use seeker_scheduler.Common.{
  ℕ, zero, suc, ◌+◌, ◌-◌, ◌*◌, ◌/◌, ◌%◌, ◌^◌, Bool, true, false, ◌&&◌, Option, none, some, ltb, leb,
  ◌==◌, if◌then◌else◌, ℤ, pos, update, for_up,
}
use seeker_scheduler.Kernel.{Cpumask}
use seeker_scheduler.States.{Sys, seeker_cpufreq_inform}

-- struct proc_info
pub record ProcInfo : Type 0 where
  pub sleep_time : ℕ
  pub awake : ℕ
  pub awake_time : ℕ

abbrev pub uint_max : ℕ
uint_max = 2 ^ 32 - 1

-- The cpus with `awake` set, among the first `n`.
unfoldable pub awake_total : (ℕ → ProcInfo) → ℕ → ℕ
awake_total info n = for_up n (λ i t. t + (info i).awake) 0

-- The variables of the inner loop of `wake_up_procs`.
pub record WakeScan : Type 0 where
  pub awake_total : ℕ
  pub min_sleep_time : ℕ
  pub wake_up_proc : ℕ

-- A round of the inner loop, whose condition is `awake_total < req_cpus`.
pub wake_scan_round : (ℕ → ProcInfo) → (req_cpus : ℕ) → ℕ → WakeScan → WakeScan
wake_scan_round info req_cpus j w =
    if ltb w.awake_total req_cpus
    then if (info j).sleep_time == 0
      then record w { awake_total = w.awake_total + 1 }
      else if ltb (info j).sleep_time w.min_sleep_time
      then record w { min_sleep_time = (info j).sleep_time; wake_up_proc = j }
      else w
    else w

pub wake_scan : (ℕ → ProcInfo) → (req_cpus n : ℕ) → WakeScan
unfolding wake_scan_round
wake_scan info req_cpus n =
    for_up n (wake_scan_round info req_cpus)
      (record { awake_total = 0; min_sleep_time = uint_max; wake_up_proc = uint_max })

unfoldable pub wake_one : ℕ → (ℕ → ProcInfo) → ℕ → ProcInfo
wake_one cpu info = update info cpu (record (info cpu) { sleep_time = 0; awake = 1 })

-- The outer loop of `wake_up_procs`, with the rounds that are left.
pub wake_rounds : (rounds req_cpus n : ℕ) → (ℕ → ProcInfo) → ℕ → ProcInfo
wake_rounds zero req_cpus n info = info
wake_rounds (suc rounds) req_cpus n info =
    let w = wake_scan info req_cpus n in
    let found = ltb w.wake_up_proc n in
    let info' = (if found then wake_one w.wake_up_proc info else info) in
    let total = (if found then w.awake_total + 1 else w.awake_total) in
    let rest = wake_rounds rounds req_cpus n info' in if leb req_cpus total then info' else rest

pub wake_up_procs : (req_cpus n : ℕ) → (ℕ → ProcInfo) → ℕ → ProcInfo
wake_up_procs req_cpus n info =
    if leb req_cpus (awake_total info n) then info else wake_rounds req_cpus req_cpus n info

-- What `retire_procs` works on; `stopped` is set by its `break`.
pub record Retiring : Type 0 where
  pub info : ℕ → ProcInfo
  pub put_to_sleep : ℕ → ℕ
  pub awake_total : ℕ
  pub stopped : Bool

-- `tasks` is `get_cpu_tasks`.
pub retire_round : (tasks : ℕ → ℕ) (req_cpus : ℕ) → ℕ → Retiring → Retiring
retire_round tasks req_cpus i r =
    if r.stopped
    then r
    else if (r.info i).awake == 1 && tasks i == 0
    then record {
      info = update r.info i (record { sleep_time = 1; awake = 0; awake_time = 0 });
      put_to_sleep = update r.put_to_sleep i 1;
      awake_total = r.awake_total - 1;
      stopped = leb (r.awake_total - 1) req_cpus;
    }
    else record r { put_to_sleep = update r.put_to_sleep i 0; stopped = leb r.awake_total req_cpus }

-- The cpus that are awake, listed from cell 0 on; beside it, how many there are.
pub awake_proxy : (n : ℕ) → (ℕ → ProcInfo) → (ℕ → ℕ) → (ℕ → ℕ) × ℕ
awake_proxy n info proxy =
    for_up n (λ i (p, j). if (info i).awake == 1 then (update p j i, suc j) else (p, j)) (proxy, 0)

-- `retire_procs`: the cpus' information, `put_to_sleep` and `cpu_awake_proxy`.
pub retire_procs :
    (tasks : ℕ → ℕ) (req_cpus n : ℕ)
    → (ℕ → ProcInfo) × (ℕ → ℕ) × (ℕ → ℕ)
    → (ℕ → ProcInfo) × (ℕ → ℕ) × (ℕ → ℕ)
retire_procs tasks req_cpus n (info, put_to_sleep, proxy) =
    let total = awake_total info n in
    let r =
      for_up n (retire_round tasks req_cpus) (record {
        info = info;
        put_to_sleep = put_to_sleep;
        awake_total = total;
        stopped = false;
      }) in
    if leb total req_cpus
    then (info, put_to_sleep, proxy)
    else (r.info, r.put_to_sleep, (awake_proxy n r.info proxy).0)

-- What the mutators meet outside: the time, whether the log is open, and which changes of frequency
-- seeker_cpufreq carries out.
pub record Env : Type 0 where
  pub now : ℕ
  pub hz : ℕ
  pub log_open : Bool
  pub accepts : ℕ → ℕ → Bool

module _ (K : Cpumask) (env : Env) where
  -- A call of `set_freq`, as it acts on the states: an accepted change is told to the scheduler.
  pub request_freq : (cpu state : ℕ) → Sys K.Mask → Sys K.Mask
  request_freq cpu state s =
      if env.accepts cpu state
      then (seeker_cpufreq_inform K env.now env.hz env.log_open cpu state s).0
      else s
