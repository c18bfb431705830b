-- ===== src/Hwcounters/Read.antt =====
-- Reading the fixed counters.
use seeker_scheduler.Common.{
  ℕ, suc, ◌+◌, ◌-◌, ◌*◌, ◌%◌, ◌^◌, ◌≤◌, ◌<◌, ◌≡◌, refl, ap, ◌∙◌, inl, inr, Bool-cases, false, ◌&&◌,
  leb, ◌==◌, for_up_inv, bit_or-above, lt→ltb, arith,
}
use seeker_scheduler.Kernel.{Reg, Msrs}
use seeker_scheduler.Pmu.{Fcounter, Pmu, u64, update_at}
use seeker_scheduler.Pmu.Enable.{update_at_same, update_at_other}
use seeker_scheduler.Pmu.Fixed.{read_fcounter, fcounter_read, get_fcounter_data}
use seeker_scheduler.Hwcounters.{Hw, read_counters}

-- The number in two halves.
abbrev pub whole : Reg → ℕ
whole v = v.high * 2 ^ 32 + v.low

module _ (H : Msrs) (nr_cpus cpu : ℕ) (p : Pmu H.Regs) where
  -- A counter with what its register holds.
  abbrev refreshed : H.Regs → Fcounter → Fcounter
  refreshed s c = let v = H.rdmsr cpu c.addr s in record c { low = v.low; high = v.high }

  -- After the counters below `m`.
  record ReadUpTo (m : ℕ) (q : Pmu H.Regs) : Type 0 where
    regs_kept : q.regs ≡ p.regs
    fcleared_kept : q.fcleared ≡ p.fcleared
    done : (j : ℕ) → j < m → q.fcounters cpu j ≡ refreshed p.regs (p.fcounters cpu j)
    ahead : (j : ℕ) → m ≤ j → q.fcounters cpu j ≡ p.fcounters cpu j

  read_fcounter-ReadUpTo :
      (m : ℕ) (q : Pmu H.Regs) → ReadUpTo m q → ReadUpTo (suc m) (read_fcounter H nr_cpus cpu m q)
  unfolding read_fcounter
  read_fcounter-ReadUpTo m q v =
      let c = q.fcounters cpu m in
      let new = refreshed q.regs c in
      let here =
        update_at_same q.fcounters cpu m new
        ∙ ap (λ s. refreshed s c) v.regs_kept
        ∙ ap (refreshed p.regs) (v.ahead m (omega arith)) in
      record {
        regs_kept = v.regs_kept;
        fcleared_kept = v.fcleared_kept;
        done = λ j s. elim (Bool-cases (m == j)) [
          | inl now ↦ let e : j ≡ m = ground arith in rw e here
          | inr past ↦
              update_at_other q.fcounters cpu m j new (λ e. ground arith) ∙ v.done j (ground arith)
        ];
        ahead = λ j s.
            update_at_other q.fcounters cpu m j new (λ e. omega arith) ∙ v.ahead j (omega arith);
      }

  fcounter_read-ReadUpTo : cpu < nr_cpus → ReadUpTo 3 (fcounter_read H nr_cpus cpu p)
  unfolding fcounter_read
  fcounter_read-ReadUpTo l = rw (lt→ltb cpu nr_cpus l) (
      for_up_inv ReadUpTo 3 (read_fcounter H nr_cpus cpu) p
        (record {
          regs_kept = refl;
          fcleared_kept = refl;
          done = λ j h. absurd (omega arith);
          ahead = λ j h. refl;
        })
        (λ m q h v. read_fcounter-ReadUpTo m q v))

  pub get_fcounter_data_lem :
      (i : ℕ)
      → cpu < nr_cpus
      → i < 3
      → (H.rdmsr cpu (p.fcounters cpu i).addr p.regs).low < 2 ^ 32
      → get_fcounter_data nr_cpus i cpu (fcounter_read H nr_cpus cpu p)
        ≡ (whole (H.rdmsr cpu (p.fcounters cpu i).addr p.regs) + 2 ^ 64 - (p.fcleared cpu i).all)
          % 2 ^ 64
  unfolding get_fcounter_data
  get_fcounter_data_lem i l h small =
      let r = fcounter_read-ReadUpTo l in
      let v = H.rdmsr cpu (p.fcounters cpu i).addr p.regs in
      let inside : (leb 3 i && leb nr_cpus cpu) ≡ false = ground arith in
      rw inside (
        ap
          (λ c.
            (u64 c.low c.high + 2 ^ 64 - ((fcounter_read H nr_cpus cpu p).fcleared cpu i).all)
            % 2 ^ 64)
          (r.done i h)
        ∙ ap (λ f. (u64 v.low v.high + 2 ^ 64 - (f cpu i).all) % 2 ^ 64) r.fcleared_kept
        ∙ ap (λ x. (x + 2 ^ 64 - (p.fcleared cpu i).all) % 2 ^ 64)
            (bit_or-above 32 v.high v.low small))

module _ (H : Msrs) (nr_cpus cpu : ℕ) (l : cpu < nr_cpus) where
  -- A cpu that reads its counters gets the first two, of its own.
  pub read_counters_lem :
      (s : Hw H.Regs) (k : ℕ)
      → k < 2
      → (read_counters H nr_cpus cpu cpu s).pmu_val cpu k
        ≡ get_fcounter_data nr_cpus k cpu (fcounter_read H nr_cpus cpu s.pmu)
  unfolding read_counters
  read_counters_lem s k h =
      let q = fcounter_read H nr_cpus cpu s.pmu in
      let value = λ (i : ℕ). get_fcounter_data nr_cpus i cpu q in
      let first = update_at s.pmu_val cpu 0 (value 0) in
      elim (Bool-cases (1 == k)) [
        | inl one ↦ let e : k ≡ 1 = ground arith in rw e (update_at_same first cpu 1 (value 1))
        | inr zero ↦
            let e : k ≡ 0 = ground arith in
            rw e (
              update_at_other first cpu 1 0 (value 1) (λ e. omega arith)
              ∙ update_at_same s.pmu_val cpu 0 (value 0))
      ]
