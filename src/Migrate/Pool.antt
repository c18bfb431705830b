-- ===== src/Migrate/Pool.antt =====
-- What the operations on the pool do to its cells.
use seeker_scheduler.Common.{
  ℕ, suc, ◌≤◌, ◌<◌, ◌≡◌, ◌≢◌, refl, ◌⊎◌, inl, inr, Bool, Bool-cases, true, false, ◌&&◌, ==_iff,
  ◌==◌, update, for_up_inv, count_in, count_in-update_lt, count_in-ext, count_in_none, arith,
}
use seeker_scheduler.Search.Scan.{first_up_cases}
use seeker_scheduler.Migrate.{MaskWork, put_work, cancel_round, cancel_task_work, change_cpus}

module _ {M : Type 0} (size : ℕ) where
  -- A cell whose work is scheduled is not free.
  abbrev pub Sound : (ℕ → MaskWork M) → Type 0
  Sound pool = (i : ℕ) → (pool i).scheduled ≡ true → (pool i).free ≡ 0

  abbrev pub free_cells : (ℕ → MaskWork M) → ℕ
  free_cells pool = count_in (λ i. (pool i).free) size 1

  taken_cell :
      (pool : ℕ → MaskWork M) (i : ℕ) (w : MaskWork M)
      → i < size
      → (pool i).free ≡ 1
      → w.free ≡ 0
      → suc (free_cells (update pool i w)) ≡ free_cells pool
  taken_cell pool i w l e z = ground (
    arith,
    count_in-ext (λ j. (update pool i w j).free) (update (λ j. (pool j).free) i 0) size 1
        (λ j h. ground arith),
    count_in-update_lt (λ j. (pool j).free) size 1 i 0 l,
  )

  -- What a request makes of the pool: it has one of the cells that were free, and the others stay; or
  -- none was free, and it is dropped.
  abbrev pub Requested : (task : ℕ) (mask : M) (pool pool' : ℕ → MaskWork M) → Type 0
  Requested task mask pool pool' =
      ((free_cells pool ≡ 0) × (pool' ≡ pool))
      ⊎ ((i : ℕ) × (i < size)
          × ((pool i).free ≡ 1)
          × (pool' i ≡ record { scheduled = true; task = task; mask = mask; free = 0 })
          × ((j : ℕ) → j ≢ i → pool' j ≡ pool j)
          × (suc (free_cells pool') ≡ free_cells pool))

  -- A request takes the first free cell, for its task and mask, and schedules its work; the other cells
  -- stay, and there is one free cell less. If no cell is free the request is dropped: nothing changes.
  pub put_work_lem :
      (task : ℕ) (mask : M) (pool : ℕ → MaskWork M)
      → Requested task mask pool (put_work size task mask pool)
  unfolding put_work
  put_work_lem task mask pool = elim (first_up_cases (λ i. (pool i).free == 1) 0 size) [
    | inl (e, m) ↦ inl (
      count_in_none (λ i. (pool i).free) size 1 (λ i l h. ground (arith, m i)),
      rw (put_work, e) refl,
    )
    | inr (i, e, g, l, t, m) ↦
        let w : MaskWork M = record { scheduled = true; task = task; mask = mask; free = 0 } in
        inr (
          i,
          omega arith,
          (==_iff _ _).0 t,
          rw (put_work, e) (ground arith),
          (λ j ne. rw (put_work, e) (ground arith)),
          rw (put_work, e) (taken_cell pool i w (omega arith) ((==_iff _ _).0 t) refl),
        )
  ]

  -- After `m` cells.
  record Cancelled (pid : ℕ → ℕ) (task : ℕ) (old : ℕ → MaskWork M) (m : ℕ) (p : ℕ → MaskWork M)
      : Type 0 where
    gone : (i : ℕ) → i < m → (p i).free ≡ 0 → pid (p i).task ≢ pid task
    others : (i : ℕ) → (m ≤ i) ⊎ (pid (old i).task ≢ pid task) → p i ≡ old i
    sound : Sound p

  cancel_round-Cancelled :
      (pid : ℕ → ℕ) (task : ℕ) (old : ℕ → MaskWork M) (m : ℕ) (p : ℕ → MaskWork M)
      → Cancelled pid task old m p
      → Cancelled pid task old (suc m) (cancel_round size pid task m p)
  unfolding cancel_round
  cancel_round-Cancelled pid task old m p v =
      elim (Bool-cases ((p m).free == 0 && pid task == pid (p m).task)) [
        | inl hit ↦ rw hit (record {
          gone = λ i l. ground (arith, v.gone i);
          others = λ i h. ground (arith, v.others i, v.others m);
          sound = λ i. ground (arith, v.sound i);
        })
        | inr miss ↦ rw miss (record {
          gone = λ i l z h. ground (arith, v.gone i);
          others = λ i h. ground (arith, v.others i);
          sound = v.sound;
        })
      ]

  -- After `cancel_task_work` no cell in use belongs to the task's process, cells of other processes
  -- stay as they were, and work is scheduled for cells in use only, if it was before.
  pub cancel_task_work_lem :
      (pid : ℕ → ℕ) (task : ℕ) (pool : ℕ → MaskWork M)
      → Sound pool
      → let pool' = cancel_task_work size pid task pool in
        ((i : ℕ) → i < size → (pool' i).free ≡ 0 → pid (pool' i).task ≢ pid task)
        × ((i : ℕ) → pid (pool i).task ≢ pid task → pool' i ≡ pool i)
        × Sound pool'
  unfolding cancel_task_work
  cancel_task_work_lem pid task pool sound =
      let v =
        for_up_inv (Cancelled pid task pool) size (cancel_round size pid task) pool
          (record { gone = λ i l. absurd (omega arith); others = λ i h. refl; sound = sound })
          (λ m p l h. cancel_round-Cancelled pid task pool m p h) in
      (v.gone, (λ i h. v.others i (inr h)), v.sound)

-- A request that was taken up, when its work runs before anything else does: the task gets its mask,
-- and the cell is free again.
pub change_cpus-put_work :
    {M T : Type 0} (size task : ℕ) (mask : M) (pool : ℕ → MaskWork M) (i : ℕ)
    (allowed_is : ℕ → M → T → Bool) (set_allowed : ℕ → M → T → T) (σ : T)
    → put_work size task mask pool i
      ≡ record { scheduled = true; task = task; mask = mask; free = 0 }
    → allowed_is task mask σ ≡ false
    → let (pool', σ') = change_cpus allowed_is set_allowed i (put_work size task mask pool, σ) in
      (σ' ≡ set_allowed task mask σ) × ((pool' i).free ≡ 1) × ((pool' i).scheduled ≡ false)
unfolding change_cpus
change_cpus-put_work size task mask pool i allowed_is set_allowed σ e a =
    rw (e, a) (ground arith, ground arith, ground arith)
