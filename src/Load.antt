-- ===== src/Load.antt =====
-- Module/seeker-scheduler/load.c: how busy a cpu was since it was asked last, in eighths. The kernel's
-- idle counters are parameters; the module's variables have 32 bits.
use seeker_scheduler.Common.{
  ℕ, ◌+◌, ◌-◌, ◌*◌, ◌/◌, ◌%◌, ◌^◌, ◌<◌, ◌≡◌, ◌≢◌, leb, if◌then◌else◌, update, for_up, arith,
  Bool-cases, inl, inr, refl,
}

-- Sets `prev_idle_time` of each cpu. `idle` is the sum of a cpu's idle and iowait counters.
pub init_idle_logger : (cpus : ℕ) (idle : ℕ → ℕ) → (ℕ → ℕ) → ℕ → ℕ
init_idle_logger cpus idle prev = for_up cpus (λ i p. update p i (idle i % 2 ^ 32)) prev

-- `total_time` is what `msecs_to_jiffies(change_interval)` gives. The load, and `prev_idle_time`.
pub get_cpu_load : (total_time : ℕ) (idle : ℕ → ℕ) (cpu : ℕ) → (ℕ → ℕ) → ℕ × (ℕ → ℕ)
get_cpu_load total_time idle cpu prev =
    let cur_idle_time = idle cpu % 2 ^ 32 in
    let this_time = (cur_idle_time + 2 ^ 32 - prev cpu) % 2 ^ 32 in
    (
      if leb total_time this_time then 0 else 8 * (total_time - this_time) % 2 ^ 32 / total_time,
      update prev cpu cur_idle_time,
    )

-- The load of an interval of `total` ticks of which `idle` were idle.
abbrev pub load_of_time : (total idle : ℕ) → ℕ
load_of_time total idle = if leb total idle then 0 else 8 * (total - idle) / total

-- For an interval below 2^29 ticks, if the cpu was idle for fewer than 2^32 ticks since the last call, whose idle time is
-- kept in its low 32 bits: whether or not the 32-bit counter wraps round meanwhile, the load is that of the
-- time which was idle since the last call, and the next call counts from here.
pub get_cpu_load_lem :
    (total_time before spent cpu : ℕ) (idle prev : ℕ → ℕ)
    → idle cpu ≡ before + spent
    → prev cpu ≡ before % 2 ^ 32
    → spent < 2 ^ 32
    → total_time < 2 ^ 29
    → let (load, prev') = get_cpu_load total_time idle cpu prev in
      (load ≡ load_of_time total_time spent) × (prev' cpu ≡ idle cpu % 2 ^ 32)
unfolding get_cpu_load
get_cpu_load_lem total before spent cpu idle prev e p l t =
    let this : (idle cpu % 2 ^ 32 + 2 ^ 32 - prev cpu) % 2 ^ 32 ≡ spent = omega arith in
    rw this (whole, ground arith)
  where
    whole :
        (if leb total spent then 0 else 8 * (total - spent) % 2 ^ 32 / total)
        ≡ load_of_time total spent
    whole = elim (Bool-cases (leb total spent)) [
      | inl slow ↦ rw slow refl
      | inr busy ↦
          let small : 8 * (total - spent) % 2 ^ 32 ≡ 8 * (total - spent) = omega arith in
          rw (busy, small) refl
    ]

-- A cpu's load depends on what was kept for it alone, and leaves what is kept for the others.
pub get_cpu_load_local :
    (total_time cpu : ℕ) (idle p q : ℕ → ℕ)
    → p cpu ≡ q cpu
    → (get_cpu_load total_time idle cpu p).0 ≡ (get_cpu_load total_time idle cpu q).0
unfolding get_cpu_load
get_cpu_load_local total_time cpu idle p q e = rw e refl

pub get_cpu_load_frame :
    (total_time cpu other : ℕ) (idle p : ℕ → ℕ)
    → cpu ≢ other
    → (get_cpu_load total_time idle cpu p).1 other ≡ p other
unfolding get_cpu_load
get_cpu_load_frame total_time cpu other idle p ne = ground arith
