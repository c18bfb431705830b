-- ===== src/Hwcounters/Fixed.antt =====
-- What the pmu driver's initialisation leaves for the fixed counters of each cpu.
use seeker_scheduler.Common.{
  ℕ, suc, ◌<◌, ◌≡◌, ◌≢◌, refl, ap, ◌∙◌, inl, inr, Bool, Bool-cases, true, false, ltb, ◌==◌,
  if◌then◌else◌, for_up, for_up_inv, update, update_other, lt→ltb, arith,
}
use seeker_scheduler.Kernel.{Msrs}
use seeker_scheduler.Pmu.{Pmu, update_at}
use seeker_scheduler.Pmu.Enable.{update_at_same, update_at_other}
use seeker_scheduler.Pmu.Fixed.{
  fcounter_clear, control_clear, fcounters_disable, init_fixed, fpmu_init_msrs,
}
use seeker_scheduler.Hwcounters.Enable.{Kept, Kept-trans}
use seeker_scheduler.Hwcounters.Startup.{Kept-refl, if-Kept, for_up-Kept}

if_taken :
    {A : Type 0} (P : A → Type 0) (a b : A) (t : Bool) → t ≡ true → P a → P (if t then a else b)
if_taken P a b t e h = rw e h

module _ (H : Msrs) (nr_cpus cpu : ℕ) where
  fcounter_clear-Kept : (i : ℕ) (p : Pmu H.Regs) → Kept p (fcounter_clear H nr_cpus cpu i p)
  unfolding fcounter_clear
  fcounter_clear-Kept i p =
      if-Kept (ltb cpu nr_cpus) (record { fcounters_kept = refl; fcleared_kept = refl })
        (Kept-refl p)

  control_clear-Kept : (p : Pmu H.Regs) → Kept p (control_clear H nr_cpus cpu p)
  unfolding control_clear
  control_clear-Kept p = record { fcounters_kept = refl; fcleared_kept = refl }

  fcounters_disable-Kept : (p : Pmu H.Regs) → Kept p (fcounters_disable H nr_cpus cpu p)
  unfolding fcounters_disable
  fcounters_disable-Kept p =
      let q = for_up 3 (fcounter_clear H nr_cpus cpu) p in
      if-Kept (ltb cpu nr_cpus)
        (Kept-trans (for_up-Kept 3 (fcounter_clear H nr_cpus cpu) p fcounter_clear-Kept)
          (control_clear-Kept q))
        (Kept-refl p)

  -- Below `m` the cpu has what cpu 0 has; the other cpus have what they had.
  pub record FromFirst (m : ℕ) (p q : Pmu H.Regs) : Type 0 where
    pub counters_copied : (k : ℕ) → k < m → q.fcounters cpu k ≡ p.fcounters 0 k
    pub cleared_copied : (k : ℕ) → k < m → q.fcleared cpu k ≡ p.fcleared 0 k
    pub counters_left : (c : ℕ) → cpu ≢ c → q.fcounters c ≡ p.fcounters c
    pub cleared_left : (c : ℕ) → cpu ≢ c → q.fcleared c ≡ p.fcleared c

  FromFirst-Kept : (m : ℕ) (p q r : Pmu H.Regs) → FromFirst m p q → Kept q r → FromFirst m p r
  FromFirst-Kept m p q r f k = record {
    counters_copied = λ j h. ap (λ g. g cpu j) k.fcounters_kept ∙ f.counters_copied j h;
    cleared_copied = λ j h. ap (λ g. g cpu j) k.fcleared_kept ∙ f.cleared_copied j h;
    counters_left = λ c ne. ap (λ g. g c) k.fcounters_kept ∙ f.counters_left c ne;
    cleared_left = λ c ne. ap (λ g. g c) k.fcleared_kept ∙ f.cleared_left c ne;
  }

  -- A counter is copied from cpu 0.
  abbrev copy : ℕ → Pmu H.Regs → Pmu H.Regs
  copy i q = record q {
    fcounters = update_at q.fcounters cpu i (q.fcounters 0 i);
    fcleared = update_at q.fcleared cpu i (q.fcleared 0 i);
  }

  copied_one :
      {A : Type 0} (f g : ℕ → ℕ → A) (i : ℕ)
      → ((k : ℕ) → k < i → g cpu k ≡ f 0 k)
      → g 0 i ≡ f 0 i
      → (k : ℕ) → k < suc i
      → update_at g cpu i (g 0 i) cpu k ≡ f 0 k
  copied_one f g i before now k h = elim (Bool-cases (i == k)) [
    | inl same ↦ let e : k ≡ i = ground arith in rw e (update_at_same g cpu i (g 0 i) ∙ now)
    | inr past ↦ update_at_other g cpu i k (g 0 i) (λ e. ground arith) ∙ before k (ground arith)
  ]

  copy-FromFirst :
      (i : ℕ) (p q : Pmu H.Regs) → cpu ≢ 0 → FromFirst i p q → FromFirst (suc i) p (copy i q)
  copy-FromFirst i p q ne f = record {
    counters_copied =
        copied_one p.fcounters q.fcounters i f.counters_copied
          (ap (λ g. g i) (f.counters_left 0 ne));
    cleared_copied =
        copied_one p.fcleared q.fcleared i f.cleared_copied (ap (λ g. g i) (f.cleared_left 0 ne));
    counters_left = λ c other.
        update_other q.fcounters cpu c (update (q.fcounters cpu) i (q.fcounters 0 i)) other
        ∙ f.counters_left c other;
    cleared_left = λ c other.
        update_other q.fcleared cpu c (update (q.fcleared cpu) i (q.fcleared 0 i)) other
        ∙ f.cleared_left c other;
  }

  init_fixed_first :
      (i : ℕ) (p : Pmu H.Regs) → (cpu == 0) ≡ true → Kept p (init_fixed H nr_cpus cpu i p)
  unfolding init_fixed
  init_fixed_first i p first = rw first (fcounter_clear-Kept i p)

  init_fixed_other :
      (i : ℕ) (p q : Pmu H.Regs)
      → (cpu == 0) ≡ false
      → FromFirst i p q
      → FromFirst (suc i) p (init_fixed H nr_cpus cpu i q)
  unfolding init_fixed
  init_fixed_other i p q other f = rw other (
      FromFirst-Kept (suc i) p (copy i q) (fcounter_clear H nr_cpus cpu i (copy i q))
        (copy-FromFirst i p q (λ e. ground arith) f) (fcounter_clear-Kept i (copy i q)))

  Kept-FromFirst : (p q : Pmu H.Regs) → cpu ≡ 0 → Kept p q → FromFirst 3 p q
  Kept-FromFirst p q e k = record {
    counters_copied = λ j h. ap (λ g. g cpu j) k.fcounters_kept ∙ ap (λ c. p.fcounters c j) e;
    cleared_copied = λ j h. ap (λ g. g cpu j) k.fcleared_kept ∙ ap (λ c. p.fcleared c j) e;
    counters_left = λ c ne. ap (λ g. g c) k.fcounters_kept;
    cleared_left = λ c ne. ap (λ g. g c) k.fcleared_kept;
  }

  init_all-FromFirst : (p : Pmu H.Regs) → FromFirst 3 p (for_up 3 (init_fixed H nr_cpus cpu) p)
  init_all-FromFirst p = elim (Bool-cases (cpu == 0)) [
    | inl first ↦
        Kept-FromFirst p (for_up 3 (init_fixed H nr_cpus cpu) p) (ground arith)
          (for_up-Kept 3 (init_fixed H nr_cpus cpu) p (λ i q. init_fixed_first i q first))
    | inr other ↦
        for_up_inv (λ i. FromFirst i p) 3 (init_fixed H nr_cpus cpu) p
          (record {
            counters_copied = λ k h. absurd (omega arith);
            cleared_copied = λ k h. absurd (omega arith);
            counters_left = λ c ne. refl;
            cleared_left = λ c ne. refl;
          })
          (λ i q h f. init_fixed_other i p q other f)
  ]

  pub fpmu_init_msrs-FromFirst :
      (p : Pmu H.Regs) → cpu < nr_cpus → FromFirst 3 p (fpmu_init_msrs H nr_cpus cpu p)
  unfolding fpmu_init_msrs
  fpmu_init_msrs-FromFirst p l =
      let q = for_up 3 (init_fixed H nr_cpus cpu) p in
      let r =
        (if cpu == 0 then q else record q { fcontrol = update q.fcontrol cpu (q.fcontrol 0) }) in
      let k : Kept q r =
        if-Kept (cpu == 0) (Kept-refl q) (record { fcounters_kept = refl; fcleared_kept = refl }) in
      let c = control_clear H nr_cpus cpu r in
      if_taken (FromFirst 3 p) (fcounters_disable H nr_cpus cpu c) p (ltb cpu nr_cpus)
        (lt→ltb cpu nr_cpus l)
        (FromFirst-Kept 3 p q (fcounters_disable H nr_cpus cpu c) (init_all-FromFirst p)
          (Kept-trans k (Kept-trans (control_clear-Kept r) (fcounters_disable-Kept c))))
