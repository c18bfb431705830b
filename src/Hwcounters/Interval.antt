-- ===== src/Hwcounters/Interval.antt =====
-- What a cpu counts from when its counters are set until it reads them.
use seeker_scheduler.Common.{
  ℕ, ◌+◌, ◌-◌, ◌%◌, ◌^◌, ◌<◌, ◌≡◌, ap, ◌∙◌, inl, inr, Bool, Bool-cases, true, false, ◌==◌,
  if◌then◌else◌, arith,
}
use seeker_scheduler.Kernel.{Msrs}
use seeker_scheduler.Pmu.{Pmu}
use seeker_scheduler.Hwcounters.{Hw, read_counters, clear_counters, enable_pmu_counters}
use seeker_scheduler.Hwcounters.Enable.{
  Addressed, Kept, counter_register, start_value, enable_pmu_counters-Counting,
  clear_counters-ClearedBoth,
}
use seeker_scheduler.Hwcounters.Read.{whole, get_fcounter_data_lem, read_counters_lem}

module _ (H : Msrs) (nr_cpus cpu : ℕ) (l : cpu < nr_cpus) where
  -- The two ways in which the counters are set.
  abbrev pub set_counters : (again : Bool) → Pmu H.Regs → Pmu H.Regs
  set_counters again p =
      if again then clear_counters H nr_cpus cpu p else enable_pmu_counters H nr_cpus cpu p

  record FromStart (k : ℕ) (p q : Pmu H.Regs) : Type 0 where
    kept : Kept p q
    register : H.rdmsr cpu (counter_register k) q.regs ≡ start_value cpu k p

  set_counters-FromStart :
      (again : Bool) (k : ℕ) (p : Pmu H.Regs)
      → k < 2
      → Addressed cpu p
      → FromStart k p (set_counters again p)
  set_counters-FromStart true k p h a =
      let c = clear_counters-ClearedBoth H nr_cpus cpu l p a in
      elim (Bool-cases (k == 0)) [
        | inl zero ↦
            let e : k ≡ 0 = ground arith in rw e (record { kept = c.kept; register = c.first })
        | inr one ↦
            let e : k ≡ 1 = ground arith in rw e (record { kept = c.kept; register = c.second })
      ]
  set_counters-FromStart false k p h a =
      let c = enable_pmu_counters-Counting H nr_cpus cpu l p a in
      elim (Bool-cases (k == 0)) [
        | inl zero ↦
            let e : k ≡ 0 = ground arith in rw e (record { kept = c.kept; register = c.first })
        | inr one ↦
            let e : k ≡ 1 = ground arith in rw e (record { kept = c.kept; register = c.second })
      ]

  -- Whether the counters are set by `enable_pmu_counters` or by `clear_counters`: if a register goes
  -- forward by `n` without going round, until `read_counters` reads it, that gives `n`. The counters
  -- have their addresses, and the start value is noted both in its halves and as a whole.
  pub read_counters-set_counters :
      (again : Bool) (s : Hw H.Regs) (t : H.Regs) (k n : ℕ)
      → k < 2
      → Addressed cpu s.pmu
      → (s.pmu.fcleared cpu k).all ≡ whole (start_value cpu k s.pmu)
      → (H.rdmsr cpu (counter_register k) t).low < 2 ^ 32
      → (H.rdmsr cpu (counter_register k) t).high < 2 ^ 32
      → whole (H.rdmsr cpu (counter_register k) t)
        ≡ whole (H.rdmsr cpu (counter_register k) (set_counters again s.pmu).regs) + n
      → (read_counters H nr_cpus cpu cpu
            (record s { pmu = record (set_counters again s.pmu) { regs = t } })).pmu_val
          cpu k
        ≡ n
  read_counters-set_counters again s t k n h a all low high moved =
      let p = s.pmu in
      let q = set_counters again p in
      let later : Pmu H.Regs = record q { regs = t } in
      let f = set_counters-FromStart again k p h a in
      let at : (later.fcounters cpu k).addr ≡ counter_register k =
        ap (λ g. (g cpu k).addr) f.kept.fcounters_kept ∙ a k (omega arith) in
      let start : (later.fcleared cpu k).all ≡ whole (start_value cpu k p) =
        ap (λ g. (g cpu k).all) f.kept.fcleared_kept ∙ all in
      let v = H.rdmsr cpu (counter_register k) t in
      let small : (H.rdmsr cpu (later.fcounters cpu k).addr t).low < 2 ^ 32 = rw at low in
      let from : whole v ≡ whole (start_value cpu k p) + n =
        moved ∙ ap (λ r. whole r + n) f.register in
      read_counters_lem H nr_cpus cpu l (record s { pmu = later }) k h
      ∙ get_fcounter_data_lem H nr_cpus cpu later k l (omega arith) small
      ∙ ap (λ x. (whole (H.rdmsr cpu x t) + 2 ^ 64 - (later.fcleared cpu k).all) % 2 ^ 64) at
      ∙ ap (λ x. (whole v + 2 ^ 64 - x) % 2 ^ 64) start
      ∙ omega arith
