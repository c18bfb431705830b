-- ===== src/Hwcounters/Loaded.antt =====
-- The fixed counters once the pmu driver is loaded.
use seeker_scheduler.Common.{
  ℕ, ◌<◌, ◌≡◌, ◌≢◌, refl, ap, subst, ◌∙◌, inl, inr, Bool-cases, ◌==◌, ◌⊎◌, List, [], ◌∷◌, pos,
  in_turn, failed, arith,
}
use seeker_scheduler.Kernel.{Msrs}
use seeker_scheduler.Pmu.{Pmu, pmu_start}
use seeker_scheduler.Pmu.Msr.{pmu_init_msrs}
use seeker_scheduler.Pmu.Fixed.{fpmu_init_msrs}
use seeker_scheduler.Pmu.Init.{pmu_init}
use seeker_scheduler.Hwcounters.Enable.{Kept, Kept-trans, counter_register}
use seeker_scheduler.Hwcounters.Startup.{Kept-refl, pmu_init_msrs-Kept}
use seeker_scheduler.Hwcounters.Fixed.{fpmu_init_msrs-FromFirst}

-- A cpu's fixed counters have the addresses of their registers, and count from 0.
pub record FromZero {R : Type 0} (cpu : ℕ) (p : Pmu R) : Type 0 where
  pub address : (k : ℕ) → k < 3 → (p.fcounters cpu k).addr ≡ counter_register k
  pub start : (k : ℕ) → k < 3 → p.fcleared cpu k ≡ record { low = 0; high = 0; all = 0 }

pmu_start-FromZero : {R : Type 0} (regs : R) → FromZero 0 (pmu_start regs)
unfolding pmu_start
pmu_start-FromZero regs = record { address = λ k h. refl; start = λ k h. refl }

Kept-FromZero : {R : Type 0} (cpu : ℕ) (p q : Pmu R) → Kept p q → FromZero cpu p → FromZero cpu q
Kept-FromZero cpu p q h z = record {
  address = λ k l. ap (λ f. (f cpu k).addr) h.fcounters_kept ∙ z.address k l;
  start = λ k l. ap (λ f. f cpu k) h.fcleared_kept ∙ z.start k l;
}

-- One of the cpus of a list.
unfoldable pub Among : ℕ → List ℕ → Type 0
Among c [] = c < 0
Among c (d ∷ ds) = (d ≡ c) ⊎ Among c ds

-- All cpus of a list exist.
unfoldable pub Exist : (nr_cpus : ℕ) → List ℕ → Type 0
Exist n [] = 0 < 1
Exist n (d ∷ ds) = (d < n) × Exist n ds

module _ (H : Msrs) (nr_cpus : ℕ) where
  -- The cpu that makes the call has what cpu 0 has, and another keeps what it has.
  own-FromZero :
      (c : ℕ) (p : Pmu H.Regs)
      → c < nr_cpus
      → FromZero 0 p
      → FromZero c (fpmu_init_msrs H nr_cpus c p)
  own-FromZero c p l z =
      let f = fpmu_init_msrs-FromFirst H nr_cpus c p l in
      record {
        address = λ k h. ap (λ x. x.addr) (f.counters_copied k h) ∙ z.address k h;
        start = λ k h. f.cleared_copied k h ∙ z.start k h;
      }

  step-FromZero :
      (c d : ℕ) (p : Pmu H.Regs)
      → c < nr_cpus
      → FromZero 0 p
      → FromZero d p
      → FromZero d (fpmu_init_msrs H nr_cpus c p)
  step-FromZero c d p l z y =
      let f = fpmu_init_msrs-FromFirst H nr_cpus c p l in
      elim (Bool-cases (c == d)) [
        | inl same ↦
            let e : c ≡ d = ground arith in
            subst (λ x. FromZero x (fpmu_init_msrs H nr_cpus c p)) e (own-FromZero c p l z)
        | inr other ↦
            let ne : c ≢ d = λ e. ground arith in
            record {
              address = λ k h. ap (λ g. (g k).addr) (f.counters_left d ne) ∙ y.address k h;
              start = λ k h. ap (λ g. g k) (f.cleared_left d ne) ∙ y.start k h;
            }
      ]

  turns-FromZero :
      (d : ℕ) (order : List ℕ) (p : Pmu H.Regs)
      → Exist nr_cpus order
      → FromZero 0 p
      → FromZero d p
      → FromZero d (in_turn order (fpmu_init_msrs H nr_cpus) p)
  unfolding in_turn Exist
  turns-FromZero d [] p e z y = y
  turns-FromZero d (c ∷ cs) p (l, e) z y =
      turns-FromZero d cs (fpmu_init_msrs H nr_cpus c p) e (step-FromZero c 0 p l z z)
        (step-FromZero c d p l z y)

  called-FromZero :
      (d : ℕ) (order : List ℕ) (p : Pmu H.Regs)
      → Exist nr_cpus order
      → Among d order
      → FromZero 0 p
      → FromZero d (in_turn order (fpmu_init_msrs H nr_cpus) p)
  unfolding in_turn Exist Among
  called-FromZero d [] p e a z = absurd (omega arith)
  called-FromZero d (c ∷ cs) p (l, e) (inl now) z =
      turns-FromZero d cs (fpmu_init_msrs H nr_cpus c p) e (step-FromZero c 0 p l z z)
        (subst (λ x. FromZero x (fpmu_init_msrs H nr_cpus c p)) now (own-FromZero c p l z))
  called-FromZero d (c ∷ cs) p (l, e) (inr thereafter) z =
      called-FromZero d cs (fpmu_init_msrs H nr_cpus c p) e thereafter (step-FromZero c 0 p l z z)

  in_turn-Kept :
      (order : List ℕ) (p : Pmu H.Regs) → Kept p (in_turn order (pmu_init_msrs H nr_cpus) p)
  unfolding in_turn
  in_turn-Kept [] p = Kept-refl p
  in_turn-Kept (c ∷ cs) p =
      let q = pmu_init_msrs H nr_cpus c p in
      Kept-trans (pmu_init_msrs-Kept H nr_cpus c p) (in_turn-Kept cs q)

  -- If on_each_cpu succeeds both times, `pmu_init` returns 0, and then the fixed counters of every cpu
  -- that has made the second call have the addresses of their registers and count from 0, in whichever
  -- order the cpus make the calls: cpu 0, from which they copy them, keeps them.
  pub pmu_init-FromZero :
      (order order' : List ℕ) (n m : ℕ) (regs : H.Regs) (cpu : ℕ)
      → Exist nr_cpus order'
      → Among cpu order'
      → let (p, ret) = pmu_init H nr_cpus order order' (pos n) (pos m) (pmu_start regs) in
        (ret ≡ pos 0) × FromZero cpu p
  unfolding pmu_init failed
  pmu_init-FromZero order order' n m regs cpu e a =
      let p = pmu_start regs in
      let q = in_turn order (pmu_init_msrs H nr_cpus) p in
      (
        refl,
        called-FromZero cpu order' q e a
            (Kept-FromZero 0 p q (in_turn-Kept order p) (pmu_start-FromZero regs)),
      )
