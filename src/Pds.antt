-- ===== src/Pds.antt =====
-- Module/seeker-scheduler/pds.c: where a task is sent when it has run for long enough, and when it
-- starts. A task's structure and the snapshots of the books that its reader takes are arguments.
pub mod Send
mod Tests
use seeker_scheduler.Common.{
  ℕ, zero, suc, ◌+◌, ◌-◌, ◌*◌, ◌/◌, ◌%◌, ◌^◌, Bool, true, false, not, ◌&&◌, ◌||◌, Option, none,
  some, List, [], ◌∷◌, ltb, leb, ◌==◌, if◌then◌else◌, ℤ, pos, negsuc, pos_part, ltb_ℤ, leb_ℤ, eqb_ℤ,
}
use seeker_scheduler.Kernel.{Cpumask}
use seeker_scheduler.States.{Sys, demand_inc}
use seeker_scheduler.Search.{search_state_closest}
use seeker_scheduler.MapIpc.{Choice, evaluate_ipc}
use seeker_scheduler.Migrate.{MaskWork, put_work}

-- The fields that the kernel patch adds to a task, and its pid; `task` is its number.
pub record Task : Type 0 where
  pub task : ℕ
  pub pid : ℕ
  pub interval : ℕ
  pub inst : ℕ
  pub ref_cy : ℕ
  pub re_cy : ℕ
  pub cpustate : ℤ
  pub hist_step : ℤ
  pub fixed_state : ℤ

-- log_scheduler_t
pub record LogScheduler : Type 0 where
  pub interval : ℕ
  pub pid : ℕ
  pub cpu : ℕ
  pub state : ℕ
  pub cycles : ℕ
  pub state_req : ℤ
  pub state_given : ℤ
  pub ipc : ℤ
  pub inst : ℕ

abbrev pub inst_threshold : ℕ
inst_threshold = 10000000

-- The conversion to a short, 16 bits.
pub to_short : ℕ → ℤ
to_short v = let w = v % 2 ^ 16 in if ltb w (2 ^ 15) then pos w else negsuc (2 ^ 16 - 1 - w)

-- The macro IPC, on 64-bit numbers.
pub ipc_of : (inst cy : ℕ) → ℕ
ipc_of inst cy = if cy == 0 then 0 else (inst * 16 % 2 ^ 64 + cy) % 2 ^ 64 / (cy * 2 % 2 ^ 64)

-- The variables that the reader's loop sets; they keep their values when it is tried again.
pub record Reading (M : Type 0) : Type 0 where
  pub new_state : ℤ
  pub state : ℕ
  pub ipc : ℤ
  pub state_req : ℤ
  pub hist_step : ℤ
  pub mask : M
  pub error_thrown : Bool

module _ (K : Cpumask) (running : ℕ → ℕ) (scheduling_method this_cpu : ℕ) where
  open K use {Mask, none as no_cpus, is_empty}

  pub with_mask : Sys Mask → Reading Mask → Reading Mask
  with_mask s r =
      if leb_ℤ (pos 0) r.new_state && ltb_ℤ r.new_state (pos s.total_states)
      then record r { mask = (s.states (pos_part r.new_state)).cpumask }
      else r

  -- A task that asked for one state always.
  pub fixed_reading : ℤ → Sys Mask → Reading Mask → Reading Mask
  unfolding with_mask
  fixed_reading level s r =
      let state = s.cur_cpu_state this_cpu in
      with_mask s (record r {
        new_state = search_state_closest K running s state (pos_part level);
        state = state;
        state_req = level;
      })

  -- `none` where evaluate_ipc reads past its table.
  pub ipc_reading : Task → Sys Mask → Reading Mask → Option (Reading Mask)
  unfolding with_mask to_short ipc_of
  ipc_reading ts s r =
      let ipc = to_short (ipc_of ts.inst ts.re_cy) in
      let state = s.cur_cpu_state this_cpu in
      let (chosen, thrown) =
        evaluate_ipc K running s scheduling_method r.error_thrown ipc state r.hist_step
          r.state_req in
      elim chosen [
        | none ↦ none
        | some c ↦ some (
            with_mask s (record r {
              new_state = c.new_state;
              state = state;
              ipc = ipc;
              state_req = c.state_req;
              hist_step = c.step;
              error_thrown = thrown;
            }))
      ]

  -- The body of the loop.
  pub reading : Task → Sys Mask → Reading Mask → Option (Reading Mask)
  unfolding fixed_reading ipc_reading
  reading ts s r =
      if eqb_ℤ ts.fixed_state (pos 0)
      then some (fixed_reading s.low_state s r)
      else if eqb_ℤ ts.fixed_state (pos 1)
      then some (fixed_reading s.mid_state s r)
      else if eqb_ℤ ts.fixed_state (pos 2)
      then some (fixed_reading s.high_state s r)
      else ipc_reading ts s r

  -- The loop: once for each snapshot that a writer has spoilt, then for the last.
  pub readings : Task → (spoilt : List (Sys Mask)) → Sys Mask → Reading Mask → Option (Reading Mask)
  unfolding reading
  readings ts [] s r = reading ts s r
  readings ts (t ∷ rest) s r = elim (reading ts t r) [
    | none ↦ none
    | some r' ↦ readings ts rest s r'
  ]

  -- What `put_mask_from_stats` leaves: the task, the books, the log's entry and the pool.
  pub record Sent : Type 0 where
    pub ts : Task
    pub sys : Sys Mask
    pub entry : Option LogScheduler
    pub pool : ℕ → MaskWork Mask
    pub error_thrown : Bool

  pub put_mask_from_stats :
      (log_open disable_scheduling error_thrown : Bool) (interval_count pool_size : ℕ)
      (spoilt : List (Sys Mask))
      → Task
      → Sys Mask
      → (ℕ → MaskWork Mask)
      → Option Sent
  unfolding readings demand_inc put_work
  put_mask_from_stats log_open disable_scheduling error_thrown interval_count pool_size spoilt ts s
        pool =
      if ltb ts.inst inst_threshold
      then some
          (record { ts = ts; sys = s; entry = none; pool = pool; error_thrown = error_thrown })
      else elim (readings ts spoilt s (record {
        new_state = negsuc 0;
        state = 0;
        ipc = pos 0;
        state_req = pos 0;
        hist_step = ts.hist_step;
        mask = no_cpus;
        error_thrown = error_thrown;
      })) [
        | none ↦ none
        | some r ↦ some (record {
          ts = record ts {
            interval = interval_count;
            inst = 0;
            ref_cy = 0;
            re_cy = 0;
            cpustate = r.new_state;
            hist_step = r.hist_step;
          };
          sys = demand_inc (pos_part r.state_req) s;
          entry =
              if log_open
              then some (record {
                interval = ts.interval;
                pid = ts.pid;
                cpu = this_cpu;
                state = r.state;
                cycles = ts.ref_cy;
                state_req = r.state_req;
                state_given = r.new_state;
                ipc = r.ipc;
                inst = ts.inst;
              })
              else none;
          pool =
              if is_empty r.mask || disable_scheduling
              then pool
              else put_work pool_size ts.task r.mask pool;
          error_thrown = r.error_thrown;
        })
      ]

  -- `initial_mask` on a snapshot that is not spoilt.
  pub initial_mask :
      (online_mask : Mask) (pool_size : ℕ)
      → Task
      → Sys Mask
      → (ℕ → MaskWork Mask)
      → Task × (ℕ → MaskWork Mask)
  unfolding put_work
  initial_mask online_mask pool_size ts s pool =
      let cur = s.cur_cpu_state this_cpu in
      let state = search_state_closest K running s cur (pos_part s.base_state) in
      let mask =
        (if leb_ℤ (pos 0) state && ltb_ℤ state (pos s.total_states)
          then (s.states (pos_part state)).cpumask
          else no_cpus) in
      if is_empty mask
      then (
        record ts { hist_step = pos 0; cpustate = pos cur },
        put_work pool_size ts.task online_mask pool,
      )
      else (record ts { hist_step = pos 0; cpustate = state }, put_work pool_size ts.task mask pool)
