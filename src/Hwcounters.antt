-- ===== src/Hwcounters.antt =====
-- Module/seeker-scheduler/hwcounters.c, with fixed counters as on ARCH_C2D: the scheduler's use of the
-- pmu driver.
pub mod Enable
pub mod Read
pub mod Interval
pub mod Startup
pub mod Fixed
pub mod Loaded
mod Tests
use seeker_scheduler.Common.{ℕ, List, ◌==◌, if◌then◌else◌, ℤ, pos, negsuc, update, in_turn, failed}
use seeker_scheduler.Kernel.{Msrs}
use seeker_scheduler.Pmu.{Pmu, update_at}
use seeker_scheduler.Pmu.Fixed.{
  fcounter_clear, fcounter_read, fcounters_enable, fcounters_disable, get_fcounter_data,
}

-- The driver's arrays and registers, pmu_val, and ERROR.
pub record Hw (R : Type 0) : Type 0 where
  pub pmu : Pmu R
  pub pmu_val : ℕ → ℕ → ℕ
  pub error : ℕ

-- `cpu` is the cpu that runs.
module _ (H : Msrs) (nr_cpus cpu : ℕ) where
  unfoldable pub clear_counters : Pmu H.Regs → Pmu H.Regs
  clear_counters p = fcounter_clear H nr_cpus cpu 1 (fcounter_clear H nr_cpus cpu 0 p)

  unfoldable pub enable_pmu_counters : Pmu H.Regs → Pmu H.Regs
  unfolding clear_counters
  enable_pmu_counters p = clear_counters (fcounters_enable H nr_cpus cpu 0 p)

  unfoldable pub disable_pmu_counters : Pmu H.Regs → Pmu H.Regs
  disable_pmu_counters p = fcounters_disable H nr_cpus cpu p

  -- `c` is the argument `cpu` of the code.
  unfoldable pub read_counters : (c : ℕ) → Hw H.Regs → Hw H.Regs
  read_counters c s =
      let q = fcounter_read H nr_cpus cpu s.pmu in
      let first = update_at s.pmu_val c 0 (get_fcounter_data nr_cpus 0 c q) in
      record s { pmu = q; pmu_val = update_at first c 1 (get_fcounter_data nr_cpus 1 c q) }

-- `answer` is what on_each_cpu returns.
module _ (H : Msrs) (nr_cpus : ℕ) (order : List ℕ) (answer : ℤ) where
  unfoldable pub configure_counters : Hw H.Regs → Hw H.Regs × ℤ
  unfolding in_turn failed enable_pmu_counters
  configure_counters s = (
    record s { pmu = in_turn order (enable_pmu_counters H nr_cpus) s.pmu },
    if failed answer then negsuc 0 else if s.error == 0 then pos 0 else negsuc 0,
  )

  unfoldable pub exit_counters : Hw H.Regs → Hw H.Regs
  unfolding in_turn disable_pmu_counters
  exit_counters s = record s { pmu = in_turn order (disable_pmu_counters H nr_cpus) s.pmu }
