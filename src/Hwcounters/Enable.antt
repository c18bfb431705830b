-- ===== src/Hwcounters/Enable.antt =====
-- Enabling the fixed counters, and clearing them.
use seeker_scheduler.Common.{
  ℕ, ◌+◌, ◌<◌, ◌≡◌, ◌≢◌, refl, sym, ap, subst, ◌∙◌, update, update_same, for_up, for_up_inv,
  ==-refl, ne→==, lt→ltb, arith,
}
use seeker_scheduler.Kernel.{Reg, Msrs}
use seeker_scheduler.Pmu.{Fixctrl, Pmu, msr_perf_fixed_ctr_ctrl}
use seeker_scheduler.Pmu.Fixed.{fcounter_clear, fcounters_enable, control_read, control_write}
use seeker_scheduler.Pmu.Fields.{FlagsFit, HoldsFlags, read_same, control_write-control_read}
use seeker_scheduler.Hwcounters.{clear_counters, enable_pmu_counters}

-- User mode is counted, kernel mode is not, and there are no interrupts.
abbrev pub user_flags : Fixctrl
user_flags = record {
  pmi0 = 0;
  os0 = 0;
  usr0 = 1;
  pmi1 = 0;
  os1 = 0;
  usr1 = 1;
  pmi2 = 0;
  os2 = 0;
  usr2 = 1;
}

user_flags-FlagsFit : FlagsFit user_flags
user_flags-FlagsFit = record {
  pmi0_fits = omega arith;
  os0_fits = omega arith;
  usr0_fits = omega arith;
  pmi1_fits = omega arith;
  os1_fits = omega arith;
  usr1_fits = omega arith;
  pmi2_fits = omega arith;
  os2_fits = omega arith;
  usr2_fits = omega arith;
}

-- The register of a fixed counter.
abbrev pub counter_register : ℕ → ℕ
counter_register k = 0x309 + k

-- The cpu's fixed counters have the addresses of their registers.
abbrev pub Addressed : {R : Type 0} → (cpu : ℕ) → Pmu R → Type 0
Addressed cpu p = (k : ℕ) → k < 3 → (p.fcounters cpu k).addr ≡ counter_register k

-- What a counter is set to when it is cleared.
abbrev pub start_value : {R : Type 0} → (cpu k : ℕ) → Pmu R → Reg
start_value cpu k p = record { low = (p.fcleared cpu k).low; high = (p.fcleared cpu k).high }

read_other :
    (H : Msrs) (cpu a b : ℕ) (v : Reg) (s : H.Regs)
    → a ≢ b
    → H.rdmsr cpu b (H.wrmsr cpu a v s) ≡ H.rdmsr cpu b s
read_other H cpu a b v s ne = H.rdmsr-wrmsr cpu a cpu b v s ∙ rw (==-refl cpu, ne→== a b ne) refl

-- The arrays that tell where the counters are and what they are set to.
pub record Kept {R : Type 0} (p q : Pmu R) : Type 0 where
  pub fcounters_kept : q.fcounters ≡ p.fcounters
  pub fcleared_kept : q.fcleared ≡ p.fcleared

pub Kept-trans : {R : Type 0} {p q r : Pmu R} → Kept p q → Kept q r → Kept p r
Kept-trans h k = record {
  fcounters_kept = k.fcounters_kept ∙ h.fcounters_kept;
  fcleared_kept = k.fcleared_kept ∙ h.fcleared_kept;
}

Kept-Addressed : {R : Type 0} (cpu : ℕ) (p q : Pmu R) → Kept p q → Addressed cpu p → Addressed cpu q
Kept-Addressed cpu p q h a k l = ap (λ f. (f cpu k).addr) h.fcounters_kept ∙ a k l

module _ (H : Msrs) (nr_cpus cpu : ℕ) (l : cpu < nr_cpus) where
  -- What clearing one counter does.
  record ClearedAt (k : ℕ) (p q : Pmu H.Regs) : Type 0 where
    kept : Kept p q
    here : H.rdmsr cpu (p.fcounters cpu k).addr q.regs ≡ start_value cpu k p
    others : (a : ℕ) → (p.fcounters cpu k).addr ≢ a → H.rdmsr cpu a q.regs ≡ H.rdmsr cpu a p.regs

  fcounter_clear-ClearedAt :
      (k : ℕ) (p : Pmu H.Regs) → ClearedAt k p (fcounter_clear H nr_cpus cpu k p)
  unfolding fcounter_clear
  fcounter_clear-ClearedAt k p =
      let a = (p.fcounters cpu k).addr in
      let v = start_value cpu k p in
      rw (lt→ltb cpu nr_cpus l) (record {
        kept = record { fcounters_kept = refl; fcleared_kept = refl };
        here = read_same H cpu a v (H.wrmsr cpu a v p.regs);
        others = λ b ne.
            read_other H cpu a b v (H.wrmsr cpu a v p.regs) ne ∙ read_other H cpu a b v p.regs ne;
      })

  -- After clear_counters, for counters with their addresses.
  pub record ClearedBoth (p q : Pmu H.Regs) : Type 0 where
    pub kept : Kept p q
    pub first : H.rdmsr cpu (counter_register 0) q.regs ≡ start_value cpu 0 p
    pub second : H.rdmsr cpu (counter_register 1) q.regs ≡ start_value cpu 1 p
    pub control :
        H.rdmsr cpu msr_perf_fixed_ctr_ctrl q.regs ≡ H.rdmsr cpu msr_perf_fixed_ctr_ctrl p.regs

  pub clear_counters-ClearedBoth :
      (p : Pmu H.Regs) → Addressed cpu p → ClearedBoth p (clear_counters H nr_cpus cpu p)
  unfolding clear_counters
  clear_counters-ClearedBoth p a =
      let q = fcounter_clear H nr_cpus cpu 0 p in
      let r = fcounter_clear H nr_cpus cpu 1 q in
      let c0 = fcounter_clear-ClearedAt 0 p in
      let c1 = fcounter_clear-ClearedAt 1 q in
      let b = Kept-Addressed cpu p q c0.kept a in
      let at0 : (p.fcounters cpu 0).addr ≡ counter_register 0 = a 0 (omega arith) in
      let at1 : (q.fcounters cpu 1).addr ≡ counter_register 1 = b 1 (omega arith) in
      let value : start_value cpu 1 q ≡ start_value cpu 1 p =
        ap (λ f. record { low = (f cpu 1).low; high = (f cpu 1).high }) c0.kept.fcleared_kept in
      record {
        kept = Kept-trans c0.kept c1.kept;
        first =
            c1.others (counter_register 0) (λ e. omega arith)
            ∙ subst (λ x. H.rdmsr cpu x q.regs ≡ start_value cpu 0 p) at0 c0.here;
        second = subst (λ x. H.rdmsr cpu x r.regs ≡ start_value cpu 1 q) at1 c1.here ∙ value;
        control =
            c1.others msr_perf_fixed_ctr_ctrl (λ e. omega arith)
            ∙ c0.others msr_perf_fixed_ctr_ctrl (λ e. omega arith);
      }

  clear_all-Kept : (p : Pmu H.Regs) → Kept p (for_up 3 (fcounter_clear H nr_cpus cpu) p)
  clear_all-Kept p =
      for_up_inv (λ i. Kept p) 3 (fcounter_clear H nr_cpus cpu) p
        (record { fcounters_kept = refl; fcleared_kept = refl })
        (λ i q h k. Kept-trans k (fcounter_clear-ClearedAt i q).kept)

  control_write-Kept : (p : Pmu H.Regs) → Kept p (control_write H nr_cpus cpu p)
  unfolding control_write
  control_write-Kept p =
      rw (lt→ltb cpu nr_cpus l) (record { fcounters_kept = refl; fcleared_kept = refl })

  -- Before the control register is written.
  abbrev flagged : Pmu H.Regs → Pmu H.Regs
  flagged p =
      let q = for_up 3 (fcounter_clear H nr_cpus cpu) p in
      record q { fcontrol = update q.fcontrol cpu user_flags }

  fcounters_enable_user :
      (p : Pmu H.Regs)
      → fcounters_enable H nr_cpus cpu 0 p ≡ control_write H nr_cpus cpu (flagged p)
  unfolding fcounters_enable
  fcounters_enable_user p = rw (lt→ltb cpu nr_cpus l) refl

  enable-Kept : (p : Pmu H.Regs) → Kept p (fcounters_enable H nr_cpus cpu 0 p)
  enable-Kept p =
      let k = clear_all-Kept p in
      subst (Kept p) (sym (fcounters_enable_user p)) (
        Kept-trans (record { fcounters_kept = k.fcounters_kept; fcleared_kept = k.fcleared_kept })
          (control_write-Kept (flagged p)))

  enable-HoldsFlags :
      (p : Pmu H.Regs)
      → HoldsFlags (control_read H nr_cpus cpu (fcounters_enable H nr_cpus cpu 0 p)) user_flags
  enable-HoldsFlags p =
      let m = flagged p in
      let flags : m.fcontrol cpu ≡ user_flags =
        update_same (for_up 3 (fcounter_clear H nr_cpus cpu) p).fcontrol cpu user_flags in
      rw (fcounters_enable_user p) (
        subst (HoldsFlags (control_read H nr_cpus cpu (control_write H nr_cpus cpu m))) flags (
          control_write-control_read H nr_cpus cpu m l
            (subst FlagsFit (sym flags) user_flags-FlagsFit)))

  -- The counters run in user mode from their start values.
  pub record Counting (p q : Pmu H.Regs) : Type 0 where
    pub kept : Kept p q
    pub flags : HoldsFlags (control_read H nr_cpus cpu q) user_flags
    pub first : H.rdmsr cpu (counter_register 0) q.regs ≡ start_value cpu 0 p
    pub second : H.rdmsr cpu (counter_register 1) q.regs ≡ start_value cpu 1 p

  -- Where the fixed counters have their addresses, `enable_pmu_counters` has them count in user mode
  -- only and without interrupts, and sets the first two, which the scheduler uses, to the values that
  -- they count from. The addresses and these values stay.
  pub enable_pmu_counters-Counting :
      (p : Pmu H.Regs) → Addressed cpu p → Counting p (enable_pmu_counters H nr_cpus cpu p)
  unfolding enable_pmu_counters control_read
  enable_pmu_counters-Counting p a =
      let q = fcounters_enable H nr_cpus cpu 0 p in
      let k = enable-Kept p in
      let c = clear_counters-ClearedBoth q (Kept-Addressed cpu p q k a) in
      let value : (i : ℕ) → start_value cpu i q ≡ start_value cpu i p =
        λ i. ap (λ f. record { low = (f cpu i).low; high = (f cpu i).high }) k.fcleared_kept in
      record {
        kept = Kept-trans k c.kept;
        flags = rw (ap (λ v. v.low) c.control) (enable-HoldsFlags p);
        first = c.first ∙ value 0;
        second = c.second ∙ value 1;
      }
