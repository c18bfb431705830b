-- ===== src/Hwcounters/Tests.antt =====
-- A cpu that has just been started.
use seeker_scheduler.Common.{
  ℕ, pos, inl, inr, List, ◌+◌, ◌*◌, ◌^◌, ◌≡◌, refl, true, [], ◌∷◌, negsuc, arith,
}
use seeker_scheduler.Kernel.{test_msrs}
use seeker_scheduler.Pmu.{pmu_start}
use seeker_scheduler.Pmu.Fixed.{fcounter_clear}
use seeker_scheduler.Hwcounters.{
  Hw, enable_pmu_counters, clear_counters, read_counters, configure_counters,
}
use seeker_scheduler.Hwcounters.Enable.{Addressed, Counting, enable_pmu_counters-Counting}
use seeker_scheduler.Pmu.Init.{pmu_init}
use seeker_scheduler.Hwcounters.Loaded.{Among, Exist, FromZero, pmu_init-FromZero}
use seeker_scheduler.Hwcounters.Interval.{read_counters-set_counters, set_counters}

abbrev started : Hw test_msrs.Regs
started = record {
  pmu = pmu_start (λ cpu a. record { low = 9; high = 1 });
  pmu_val = λ cpu k. 0;
  error = 0;
}

started-Addressed : Addressed 0 started.pmu
unfolding pmu_start
started-Addressed k h = refl

enable_pmu_counters-Counting_example :
    Counting test_msrs 1 0 (omega arith) started.pmu (enable_pmu_counters test_msrs 1 0 started.pmu)
enable_pmu_counters-Counting_example =
    enable_pmu_counters-Counting test_msrs 1 0 (omega arith) started.pmu started-Addressed

abbrev later : test_msrs.Regs
later cpu a = record { low = 7; high = 2 }

set_to_zero :
    test_msrs.rdmsr 0 0x30A (set_counters test_msrs 1 0 (omega arith) true started.pmu).regs
    ≡ record { low = 0; high = 0 }
unfolding clear_counters fcounter_clear pmu_start
set_to_zero = refl

start_noted : (started.pmu.fcleared 0 1).all ≡ 0
unfolding pmu_start
start_noted = refl

read_counters-set_counters_example :
    (read_counters test_msrs 1 0 0 (record started {
      pmu = record (set_counters test_msrs 1 0 (omega arith) true started.pmu) { regs = later };
    })).pmu_val
      0 1
    ≡ 2 * 2 ^ 32 + 7
unfolding clear_counters fcounter_clear pmu_start
read_counters-set_counters_example =
    read_counters-set_counters test_msrs 1 0 (omega arith) true started later 1 (2 * 2 ^ 32 + 7)
      (omega arith) started-Addressed refl (omega arith) (omega arith) refl

refused : (configure_counters test_msrs 1 (0 ∷ []) (negsuc 0) started).1 ≡ negsuc 0
unfolding configure_counters
refused = refl

abbrev order : List ℕ
order = 2 ∷ 0 ∷ 1 ∷ []

pmu_init-FromZero_example :
    let (p, ret) = pmu_init test_msrs 4 order order (pos 0) (pos 0) (pmu_start later) in
    (ret ≡ pos 0) × FromZero 1 p
unfolding Among Exist
pmu_init-FromZero_example =
    pmu_init-FromZero test_msrs 4 order order 0 0 later 1
      (omega arith, (omega arith, (omega arith, omega arith))) (inr (inr (inl refl)))
