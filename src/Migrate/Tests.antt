-- ===== src/Migrate/Tests.antt =====
-- A pool of three cells, the first in use for task 7.
use seeker_scheduler.Common.{
  ℕ, suc, ◌<◌, ◌≡◌, ◌≢◌, ◌⊎◌, refl, true, false, ◌==◌, ◌+◌, if◌then◌else◌, update, arith,
}
use seeker_scheduler.Search.Scan.{first_up}
use seeker_scheduler.Migrate.{MaskWork, put_work, cancel_task_work, change_cpus}
use seeker_scheduler.Migrate.Pool.{
  Sound, free_cells, put_work_lem, cancel_task_work_lem, change_cpus-put_work,
}

abbrev small_pool : ℕ → MaskWork ℕ
small_pool i = record { scheduled = i == 0; task = 7; mask = 1; free = if i == 0 then 0 else 1 }

small_pool-Sound : Sound 3 small_pool
small_pool-Sound i h = ground arith

put_work_lem_run :
    ((free_cells 3 small_pool ≡ 0) × (put_work 3 8 5 small_pool ≡ small_pool))
    ⊎ ((i : ℕ) × (i < 3)
        × ((small_pool i).free ≡ 1)
        × (put_work 3 8 5 small_pool i ≡ record { scheduled = true; task = 8; mask = 5; free = 0 })
        × ((j : ℕ) → j ≢ i → put_work 3 8 5 small_pool j ≡ small_pool j)
        × (suc (free_cells 3 (put_work 3 8 5 small_pool)) ≡ free_cells 3 small_pool))
put_work_lem_run = put_work_lem 3 8 5 small_pool

cancel_task_work_lem_example :
    let pool = cancel_task_work 3 (λ t. t + 100) 7 small_pool in
    ((i : ℕ) → i < 3 → (pool i).free ≡ 0 → (pool i).task + 100 ≢ 107)
    × ((i : ℕ) → (small_pool i).task + 100 ≢ 107 → pool i ≡ small_pool i)
    × Sound 3 pool
cancel_task_work_lem_example = cancel_task_work_lem 3 (λ t. t + 100) 7 small_pool small_pool-Sound

-- Cell 1 is the first free one.
put_at_1 : put_work 3 8 5 small_pool 1 ≡ record { scheduled = true; task = 8; mask = 5; free = 0 }
unfolding put_work first_up
put_at_1 = refl

change_cpus-put_work_run :
    let (pool, allowed) =
      change_cpus (λ t m a. false) (λ t m a. update a t m) 1 (put_work 3 8 5 small_pool, λ t. 0) in
    (allowed ≡ update (λ t. 0) 8 5) × ((pool 1).free ≡ 1) × ((pool 1).scheduled ≡ false)
change_cpus-put_work_run =
    change_cpus-put_work 3 8 5 small_pool 1 (λ t m a. false) (λ t m a. update a t m) (λ t. 0)
      put_at_1 refl
