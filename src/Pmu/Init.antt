-- ===== src/Pmu/Init.antt =====
-- Module/pmu/main.c: the module as a whole, and the fixed counters as it leaves them.
use seeker_scheduler.Common.{ℕ, ◌&&◌, ltb, List, if◌then◌else◌, ℤ, pos, negsuc, in_turn, failed}
use seeker_scheduler.Kernel.{Msrs}
use seeker_scheduler.Pmu.{Pmu, num_counters}
use seeker_scheduler.Pmu.Msr.{pmu_init_msrs}
use seeker_scheduler.Pmu.Fixed.{fpmu_init_msrs}

-- The order in which the cpus make the two calls, and what on_each_cpu returns.
unfoldable pub pmu_init :
    (H : Msrs) (nr_cpus : ℕ) (order order' : List ℕ) (answer answer' : ℤ)
    → Pmu H.Regs
    → Pmu H.Regs × ℤ
unfolding in_turn failed pmu_init_msrs
pmu_init H nr_cpus order order' answer answer' p =
    let q = in_turn order (pmu_init_msrs H nr_cpus) p in
    let r = in_turn order' (fpmu_init_msrs H nr_cpus) q in
    if failed answer then (q, negsuc 18) else if failed answer' then (r, negsuc 18) else (r, pos 0)

-- All counters are free again.
unfoldable pub pmu_exit : {R : Type 0} → (nr_cpus : ℕ) → Pmu R → Pmu R
pmu_exit nr_cpus p = record p {
  counters = λ i j.
      if ltb i nr_cpus && ltb j num_counters
      then record (p.counters i j) { enabled = 0 }
      else p.counters i j;
}
