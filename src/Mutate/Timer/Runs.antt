-- ===== src/Mutate/Timer/Runs.antt =====
-- The mutator's work from `init_mutator` on, run after run.
use seeker_scheduler.Common.{
  ℕ, max, ◌*◌, ◌/◌, ◌<◌, ◌≡◌, ◌≢◌, refl, ap, ◌∙◌, Bool-cases, inl, inr, true, false, none, some,
  List, [], ◌∷◌, ltb, ◌==◌, if◌then◌else◌, pos, for_up_inv, arith,
}
use seeker_scheduler.Kernel.{Cpumask}
use seeker_scheduler.States.{Sys}
use seeker_scheduler.States.Invariant.{Consistent}
use seeker_scheduler.Mutate.{ProcInfo}
use seeker_scheduler.Mutate.Governors.{ondemand, conservative}
use seeker_scheduler.Mutate.Governors.Follow.{governors-Consistent}
use seeker_scheduler.Mutate.Greedy.Run.{greedy_delta}
use seeker_scheduler.Mutate.Dynamic.Run.{Arrays, mem_dynamic_prog}
use seeker_scheduler.Mutate.Timer.{
  MutationMethod, greedy_delta_mutator, mem_dynamic_prog_mutator, ondemand_mutator,
  conservative_mutator, static_mutator, unknown_mutator, Timer, Moment, wake_all, start_timer,
  init_mutator, exit_mutator, state_change,
}

abbrev pub awake_info : ProcInfo
awake_info = record { sleep_time = 0; awake = 1; awake_time = 1 }

wake_all_lem : (n : ℕ) (info : ℕ → ProcInfo) (i : ℕ) → i < n → wake_all n info i ≡ awake_info
unfolding wake_all
wake_all_lem n info =
    for_up_inv (λ m f. (i : ℕ) → i < m → f i ≡ awake_info) n _ info (λ i l. absurd (omega arith))
      (λ m f l h i li. elim (Bool-cases (m == i)) [
        | inl here ↦ rw here refl
        | inr past ↦ rw past (h i (ground arith))
      ])

-- A step for each moment, in their order.
pub in_order : {S : Type 0} → (Moment → S → S) → List Moment → S → S
in_order f [] σ = σ
in_order f (x ∷ xs) σ = in_order f xs (f x σ)

module _ (K : Cpumask) (delta : ℕ) where
  -- The runs of the work at the given moments.
  unfoldable pub runs : MutationMethod → List Moment → Timer K.Mask → Timer K.Mask
  runs method [] t = t
  runs method (x ∷ xs) t = runs method xs (state_change K delta method x t).0

  -- A run of each mutator, alone.
  abbrev pub ondemand_run : Moment → Sys K.Mask × (ℕ → ℕ) → Sys K.Mask × (ℕ → ℕ)
  ondemand_run x sp = ondemand K x.env x.total_time x.idle sp

  abbrev pub conservative_run : Moment → Sys K.Mask × (ℕ → ℕ) → Sys K.Mask × (ℕ → ℕ)
  conservative_run x sp = conservative K x.env x.total_time x.idle sp

  abbrev pub greedy_run : Moment → Sys K.Mask × (ℕ → ProcInfo) × ℕ → Sys K.Mask × (ℕ → ProcInfo) × ℕ
  greedy_run x σ =
      let (s, info, count, entry) = greedy_delta K x.env x.running x.before (pos delta) σ in
      (s, info, count)

  abbrev pub dynamic_run : Moment → Sys K.Mask × Arrays × ℕ → Sys K.Mask × Arrays × ℕ
  dynamic_run x σ =
      let (s, arrays, count, entry) = mem_dynamic_prog K x.env x.running delta σ in
      (s, arrays, count)

  -- What the runs have made of the state.
  abbrev pub Mutated : MutationMethod → List Moment → Timer K.Mask → Timer K.Mask → Type 0
  Mutated ondemand_mutator xs t u =
      ((u.sys, u.prev_idle_time) ≡ in_order ondemand_run xs (t.sys, t.prev_idle_time))
      × (u.arrays ≡ t.arrays)
      × Consistent K u.sys
  Mutated conservative_mutator xs t u =
      ((u.sys, u.prev_idle_time) ≡ in_order conservative_run xs (t.sys, t.prev_idle_time))
      × (u.arrays ≡ t.arrays)
      × Consistent K u.sys
  Mutated greedy_delta_mutator xs t u =
      (u.sys, u.arrays.info, u.interval_count)
      ≡ in_order greedy_run xs (t.sys, t.arrays.info, t.interval_count)
  Mutated mem_dynamic_prog_mutator xs t u =
      (u.sys, u.arrays, u.interval_count)
      ≡ in_order dynamic_run xs (t.sys, t.arrays, t.interval_count)
  Mutated static_mutator xs t u = u ≡ t
  Mutated unknown_mutator xs t u = u ≡ t

  runs_greedy :
      (xs : List Moment) (t : Timer K.Mask)
      → Mutated greedy_delta_mutator xs t (runs greedy_delta_mutator xs t)
  unfolding runs in_order state_change
  runs_greedy [] t = refl
  runs_greedy (x ∷ xs) t = runs_greedy xs (state_change K delta greedy_delta_mutator x t).0

  runs_dynamic :
      (xs : List Moment) (t : Timer K.Mask)
      → Mutated mem_dynamic_prog_mutator xs t (runs mem_dynamic_prog_mutator xs t)
  unfolding runs in_order state_change
  runs_dynamic [] t = refl
  runs_dynamic (x ∷ xs) t = runs_dynamic xs (state_change K delta mem_dynamic_prog_mutator x t).0

  runs-Mutated :
      (method : MutationMethod) (xs : List Moment) (t : Timer K.Mask)
      → method ≢ static_mutator
      → method ≢ unknown_mutator
      → Consistent K t.sys
      → Mutated method xs t (runs method xs t)
  unfolding runs in_order state_change
  runs-Mutated static_mutator xs t h g b = absurd (h refl)
  runs-Mutated unknown_mutator xs t h g b = absurd (g refl)
  runs-Mutated ondemand_mutator [] t h g b = (refl, refl, b)
  runs-Mutated ondemand_mutator (x ∷ xs) t h g b =
      runs-Mutated ondemand_mutator xs (state_change K delta ondemand_mutator x t).0 h g
        (governors-Consistent K x.env x.total_time x.idle t.sys t.prev_idle_time b).0
  runs-Mutated conservative_mutator [] t h g b = (refl, refl, b)
  runs-Mutated conservative_mutator (x ∷ xs) t h g b =
      runs-Mutated conservative_mutator xs (state_change K delta conservative_mutator x t).0 h g
        (governors-Consistent K x.env x.total_time x.idle t.sys t.prev_idle_time b).1
  runs-Mutated greedy_delta_mutator xs t h g b = runs_greedy xs t
  runs-Mutated mem_dynamic_prog_mutator xs t h g b = runs_dynamic xs t

  -- The work is due after `j` ticks.
  pub record Due (j : ℕ) (t : Timer K.Mask) : Type 0 where
    pub started : t.timer_started ≡ true
    pub interval : t.interval_jiffies ≡ j
    pub due : t.work_due ≡ some j

  again :
      {j : ℕ} (t : Timer K.Mask)
      → Due j t
      → (if t.timer_started then some t.interval_jiffies else none) ≡ some j
  again t d = ap (λ b. if b then some t.interval_jiffies else none) d.started ∙ ap some d.interval

  state_change-Due :
      (j : ℕ) (method : MutationMethod) (x : Moment) (t : Timer K.Mask)
      → method ≢ static_mutator
      → method ≢ unknown_mutator
      → Due j t
      → Due j (state_change K delta method x t).0
  unfolding state_change
  state_change-Due j static_mutator x t h g d = absurd (h refl)
  state_change-Due j unknown_mutator x t h g d = absurd (g refl)
  state_change-Due j ondemand_mutator x t h g d = record {
    started = d.started;
    interval = d.interval;
    due = again t d;
  }
  state_change-Due j conservative_mutator x t h g d = record {
    started = d.started;
    interval = d.interval;
    due = again t d;
  }
  state_change-Due j greedy_delta_mutator x t h g d = record {
    started = d.started;
    interval = d.interval;
    due = again t d;
  }
  state_change-Due j mem_dynamic_prog_mutator x t h g d = record {
    started = d.started;
    interval = d.interval;
    due = again t d;
  }

  runs-Due :
      (j : ℕ) (method : MutationMethod) (xs : List Moment) (t : Timer K.Mask)
      → method ≢ static_mutator
      → method ≢ unknown_mutator
      → Due j t
      → Due j (runs method xs t)
  unfolding runs
  runs-Due j method [] t h g d = d
  runs-Due j method (x ∷ xs) t h g d =
      runs-Due j method xs (state_change K delta method x t).0 h g
        (state_change-Due j method x t h g d)

  -- The interval, in ticks.
  abbrev pub ticks : (hz : ℕ) → Timer K.Mask → ℕ
  ticks hz t = max 1 (t.change_interval * hz / 1000)

  init_mutator_starts :
      (nr_cpus hz : ℕ) (method : MutationMethod) (t : Timer K.Mask)
      → method ≢ static_mutator
      → init_mutator nr_cpus hz method t ≡ start_timer nr_cpus hz t
  unfolding init_mutator
  init_mutator_starts n hz static_mutator t h = absurd (h refl)
  init_mutator_starts n hz unknown_mutator t h = refl
  init_mutator_starts n hz ondemand_mutator t h = refl
  init_mutator_starts n hz conservative_mutator t h = refl
  init_mutator_starts n hz greedy_delta_mutator t h = refl
  init_mutator_starts n hz mem_dynamic_prog_mutator t h = refl

  start_timer-Due :
      (nr_cpus hz : ℕ) (t : Timer K.Mask) → Due (ticks hz t) (start_timer nr_cpus hz t)
  unfolding start_timer
  start_timer-Due n hz t =
      let e : (if ltb (t.change_interval * hz / 1000) 1 then 1 else t.change_interval * hz / 1000)
          ≡ ticks hz t =
        ground arith in
      record { started = refl; interval = e; due = ap some e }

  start_timer_info :
      (nr_cpus hz : ℕ) (t : Timer K.Mask) (i : ℕ)
      → i < nr_cpus
      → (start_timer nr_cpus hz t).arrays.info i ≡ awake_info
  unfolding start_timer
  start_timer_info n hz t = wake_all_lem n t.arrays.info

  start_timer_sys : (nr_cpus hz : ℕ) (t : Timer K.Mask) → (start_timer nr_cpus hz t).sys ≡ t.sys
  unfolding start_timer
  start_timer_sys n hz t = refl

  exit_mutator-stops :
      (j : ℕ) (t : Timer K.Mask)
      → Due j t
      → exit_mutator t ≡ record t { timer_started = false; work_due = none }
  unfolding exit_mutator
  exit_mutator-stops j t d =
      ap (λ b. if b then record t { timer_started = false; work_due = none } else t) d.started

  -- From consistent books, for a method that has a mutator: `init_mutator` wakes all cpus and schedules
  -- the work after change_interval in ticks, but one tick at least. However often the work then runs,
  -- it is due again after as many ticks, until `exit_mutator` takes it back; and what it has made of the
  -- variables that the method's mutator works on is what as many runs of that mutator make of them. Under
  -- ondemand and conservative all cpus stay awake, and the books stay consistent.
  pub runs_lem :
      (nr_cpus hz : ℕ) (method : MutationMethod) (xs : List Moment) (t : Timer K.Mask)
      → method ≢ static_mutator
      → method ≢ unknown_mutator
      → Consistent K t.sys
      → let t' = init_mutator nr_cpus hz method t in
        let u = runs method xs t' in
        ((i : ℕ) → i < nr_cpus → t'.arrays.info i ≡ awake_info)
        × (t'.sys ≡ t.sys)
        × Due (ticks hz t) u
        × Mutated method xs t' u
        × (exit_mutator u ≡ record u { timer_started = false; work_due = none })
  runs_lem n hz method xs t h g b =
      let t' = start_timer n hz t in
      let d = runs-Due (ticks hz t) method xs t' h g (start_timer-Due n hz t) in
      rw (init_mutator_starts n hz method t h) (
        start_timer_info n hz t,
        start_timer_sys n hz t,
        d,
        runs-Mutated method xs t' h g (rw (start_timer_sys n hz t) b),
        exit_mutator-stops (ticks hz t) (runs method xs t') d,
      )
