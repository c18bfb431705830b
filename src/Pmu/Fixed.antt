-- ===== src/Pmu/Fixed.antt =====
-- Module/pmu/msr_fpmu.c and intr_fpmu.c, and fpmu_init_msrs of main.c.
use seeker_scheduler.Common.{
  ℕ, ◌+◌, ◌-◌, ◌%◌, ◌^◌, ◌&&◌, Option, none, some, ltb, leb, ◌==◌, if◌then◌else◌, ℤ, pos, negsuc,
  update, for_up, bit_and,
}
use seeker_scheduler.Kernel.{Reg, Msrs}
use seeker_scheduler.Pmu.{
  num_fixed_counters, fixsel_reserved_bits, msr_perf_fixed_ctr_ctrl, msr_perf_global_status,
  msr_perf_global_ovf_ctrl, Fixctrl, Pmu, update_at, u64, control_low,
}

-- `cpu` is the cpu that runs, smp_processor_id; `nr_cpus` is NR_CPUS.
module _ (H : Msrs) (nr_cpus cpu : ℕ) where
  open H use {rdmsr, wrmsr}

  unfoldable pub control_read : Pmu H.Regs → ℕ
  control_read p = (rdmsr cpu msr_perf_fixed_ctr_ctrl p.regs).low

  unfoldable pub control_clear : Pmu H.Regs → Pmu H.Regs
  control_clear p =
      let v = rdmsr cpu msr_perf_fixed_ctr_ctrl p.regs in
      record p {
        regs =
            wrmsr cpu msr_perf_fixed_ctr_ctrl
              (record v { low = bit_and v.low fixsel_reserved_bits }) p.regs;
      }

  -- The reserved bits that are read are not kept: the code assigns `low` anew.
  unfoldable pub control_write : Pmu H.Regs → Pmu H.Regs
  unfolding control_low
  control_write p =
      let v = rdmsr cpu msr_perf_fixed_ctr_ctrl p.regs in
      if ltb cpu nr_cpus
      then record p {
        regs =
            wrmsr cpu msr_perf_fixed_ctr_ctrl (record v { low = control_low (p.fcontrol cpu) })
              p.regs;
      }
      else p

  -- The code writes the register twice.
  unfoldable pub fcounter_clear : (counter : ℕ) → Pmu H.Regs → Pmu H.Regs
  fcounter_clear i p =
      let a = (p.fcounters cpu i).addr in
      let v : Reg = record { low = (p.fcleared cpu i).low; high = (p.fcleared cpu i).high } in
      if ltb cpu nr_cpus then record p { regs = wrmsr cpu a v (wrmsr cpu a v p.regs) } else p

  unfoldable pub read_fcounter : ℕ → Pmu H.Regs → Pmu H.Regs
  read_fcounter i p =
      let c = p.fcounters cpu i in
      let v = rdmsr cpu c.addr p.regs in
      record p { fcounters = update_at p.fcounters cpu i (record c { low = v.low; high = v.high }) }

  unfoldable pub fcounter_read : Pmu H.Regs → Pmu H.Regs
  unfolding read_fcounter
  fcounter_read p = if ltb cpu nr_cpus then for_up num_fixed_counters read_fcounter p else p

  unfoldable pub fcounters_disable : Pmu H.Regs → Pmu H.Regs
  unfolding fcounter_clear control_clear
  fcounters_disable p =
      if ltb cpu nr_cpus then control_clear (for_up num_fixed_counters fcounter_clear p) else p

  unfoldable pub fcounters_enable : (os : ℕ) → Pmu H.Regs → Pmu H.Regs
  unfolding fcounter_clear control_write
  fcounters_enable os p =
      let q = for_up num_fixed_counters fcounter_clear p in
      if ltb cpu nr_cpus
      then control_write (record q {
        fcontrol = update q.fcontrol cpu (record {
          pmi0 = 0;
          os0 = os % 2;
          usr0 = 1;
          pmi1 = 0;
          os1 = os % 2;
          usr1 = 1;
          pmi2 = 0;
          os2 = os % 2;
          usr2 = 1;
        });
      })
      else p

  unfoldable pub init_fixed : ℕ → Pmu H.Regs → Pmu H.Regs
  unfolding fcounter_clear
  init_fixed i p = fcounter_clear i (
      if cpu == 0 then p else record p {
        fcounters = update_at p.fcounters cpu i (p.fcounters 0 i);
        fcleared = update_at p.fcleared cpu i (p.fcleared 0 i);
      })

  unfoldable pub fpmu_init_msrs : Pmu H.Regs → Pmu H.Regs
  unfolding init_fixed control_clear fcounters_disable
  fpmu_init_msrs p =
      let q = for_up num_fixed_counters init_fixed p in
      let r =
        (if cpu == 0 then q else record q { fcontrol = update q.fcontrol cpu (q.fcontrol 0) }) in
      if ltb cpu nr_cpus then fcounters_disable (control_clear r) else p

  -- The result is always 0.
  pub fpmu_configure_interrupt : (ctr low high : ℕ) → Pmu H.Regs → Pmu H.Regs × ℤ
  fpmu_configure_interrupt ctr low high p = (
    if ltb ctr num_fixed_counters
        then record p {
          fcleared =
              update_at p.fcleared cpu ctr (record { low = low; high = high; all = u64 low high });
        }
        else p,
    pos 0,
  )

  -- The interrupt flag of a fixed counter; there is none for other numbers.
  pub set_pmi : (ctr flag : ℕ) → Fixctrl → Option Fixctrl
  set_pmi ctr flag c =
      if ctr == 0
      then some (record c { pmi0 = flag })
      else if ctr == 1
      then some (record c { pmi1 = flag })
      else if ctr == 2
      then some (record c { pmi2 = flag })
      else none

  pub switch_pmi : (ctr flag : ℕ) → Pmu H.Regs → Pmu H.Regs × ℤ
  unfolding control_write set_pmi
  switch_pmi ctr flag p = elim (set_pmi ctr flag (p.fcontrol cpu)) [
    | none ↦ (p, negsuc 0)
    | some c ↦ (control_write (record p { fcontrol = update p.fcontrol cpu c }), pos 0)
  ]

  pub fpmu_enable_interrupt : (ctr : ℕ) → Pmu H.Regs → Pmu H.Regs × ℤ
  unfolding switch_pmi
  fpmu_enable_interrupt ctr p = switch_pmi ctr 1 p

  pub fpmu_disable_interrupt : (ctr : ℕ) → Pmu H.Regs → Pmu H.Regs × ℤ
  unfolding switch_pmi
  fpmu_disable_interrupt ctr p = switch_pmi ctr 0 (
      if ltb ctr num_fixed_counters
      then record p {
        fcleared = update_at p.fcleared cpu ctr (record { low = 0; high = 0; all = 0 });
      }
      else p)

  pub fpmu_is_interrupt : (ctr : ℕ) → Pmu H.Regs → ℕ
  fpmu_is_interrupt ctr p =
      if ltb ctr num_fixed_counters
      then bit_and (rdmsr cpu msr_perf_global_status p.regs).high (2 ^ ctr)
      else 0

  pub fpmu_clear_ovf_status : (ctr : ℕ) → Pmu H.Regs → Pmu H.Regs × ℤ
  fpmu_clear_ovf_status ctr p =
      let v = rdmsr cpu msr_perf_global_ovf_ctrl p.regs in
      if ltb ctr num_fixed_counters
      then (
        record p {
          regs =
              wrmsr cpu msr_perf_global_ovf_ctrl
                (record v { high = bit_and v.high (2 ^ 32 - 1 - 2 ^ ctr) }) p.regs;
        },
        pos 0,
      )
      else (p, negsuc 0)

-- What was read last, less what the counter was cleared to. The guard needs both numbers to be out of
-- range.
unfoldable pub get_fcounter_data : {R : Type 0} → (nr_cpus counter cpu_id : ℕ) → Pmu R → ℕ
get_fcounter_data nr_cpus i c p =
    if leb num_fixed_counters i && leb nr_cpus c
    then 2 ^ 64 - 1
    else (u64 (p.fcounters c i).low (p.fcounters c i).high + 2 ^ 64 - (p.fcleared c i).all) % 2 ^ 64
