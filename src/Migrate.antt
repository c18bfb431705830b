-- ===== src/Migrate.antt =====
-- Module/seeker-scheduler/migrate.c: the pool of requests to move a task to other cpus. The kernel's
-- delayed work items are modelled by whether one is scheduled; its other parts are parameters.
-- `put_work` takes its cell under the lock and fills it in afterwards: here both are one step.
pub mod Pool
mod Tests
use seeker_scheduler.Common.{
  ℕ, ◌*◌, Bool, true, false, not, ◌&&◌, Option, none, some, ◌==◌, if◌then◌else◌, update, for_up,
}
use seeker_scheduler.Search.Scan.{first_up}

-- struct mask_work; `task` is the task's number.
pub record MaskWork (M : Type 0) : Type 0 where
  pub scheduled : Bool
  pub task : ℕ
  pub mask : M
  pub free : ℕ

module _ {M : Type 0} (pool_size : ℕ) where
  pub init_mig_pool : (ℕ → MaskWork M) → ℕ → MaskWork M
  init_mig_pool pool =
      for_up pool_size (λ i p. update p i (record (p i) { scheduled = false; free = 1 })) pool

  pub exit_mig_pool : (ℕ → MaskWork M) → ℕ → MaskWork M
  exit_mig_pool pool =
      for_up pool_size
        (λ i p. update p i (
          if (p i).free == 1
          then record (p i) { free = 0 }
          else record (p i) { scheduled = false; free = 0 }))
        pool

  unfoldable pub put_work : (task : ℕ) (mask : M) → (ℕ → MaskWork M) → ℕ → MaskWork M
  put_work task mask pool = elim (first_up (λ i. (pool i).free == 1) 0 pool_size) [
    | none ↦ pool
    | some i ↦ update pool i (record { scheduled = true; task = task; mask = mask; free = 0 })
  ]

  -- `pid` is the process id of each task.
  pub cancel_round : (pid : ℕ → ℕ) (task : ℕ) → ℕ → (ℕ → MaskWork M) → ℕ → MaskWork M
  cancel_round pid task i pool =
      if (pool i).free == 0 && pid task == pid (pool i).task
      then update pool i (record (pool i) { scheduled = false; free = 1 })
      else pool

  pub cancel_task_work : (pid : ℕ → ℕ) (task : ℕ) → (ℕ → MaskWork M) → ℕ → MaskWork M
  unfolding cancel_round
  cancel_task_work pid task pool = for_up pool_size (cancel_round pid task) pool

-- The work item in cell `i` runs, and is scheduled no longer. `allowed_is` is `cpus_equal` with the task's present mask, and
-- `set_allowed` is `set_cpus_allowed_ptr`, on the kernel's state `T`.
pub change_cpus :
    {M T : Type 0} (allowed_is : ℕ → M → T → Bool) (set_allowed : ℕ → M → T → T)
    → ℕ
    → (ℕ → MaskWork M) × T
    → (ℕ → MaskWork M) × T
change_cpus allowed_is set_allowed i (pool, σ) =
    let w = pool i in
    if w.free == 1 then (update pool i (record w { scheduled = false }), σ) else (
      update pool i (record w { scheduled = false; free = 1 }),
      if allowed_is w.task w.mask σ then σ else set_allowed w.task w.mask σ,
    )
