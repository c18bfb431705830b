-- ===== src/Hwcounters/Startup.antt =====
-- What the pmu driver's initialisation leaves for the fixed counters of each cpu.
use seeker_scheduler.Common.{
  ℕ, refl, inl, inr, Bool, Bool-cases, true, false, ◌||◌, leb, ltb, ◌==◌, if◌then◌else◌, for_up,
  for_up_inv,
}
use seeker_scheduler.Kernel.{Msrs}
use seeker_scheduler.Pmu.{Pmu, update_at}
use seeker_scheduler.Pmu.Msr.{
  evtsel_clear, evtsel_write, counter_clear, counter_disable, init_msr, pmu_init_msrs,
}
use seeker_scheduler.Hwcounters.Enable.{Kept, Kept-trans}

pub Kept-refl : {R : Type 0} (p : Pmu R) → Kept p p
Kept-refl p = record { fcounters_kept = refl; fcleared_kept = refl }

-- A loop keeps what its body keeps.
pub for_up-Kept :
    {R : Type 0} (n : ℕ) (f : ℕ → Pmu R → Pmu R) (p : Pmu R)
    → ((i : ℕ) (q : Pmu R) → Kept q (f i q))
    → Kept p (for_up n f p)
for_up-Kept n f p keep =
    for_up_inv (λ i. Kept p) n f p (Kept-refl p) (λ i q h k. Kept-trans k (keep i q))

pub if-Kept :
    {R : Type 0} {p a b : Pmu R} (t : Bool) → Kept p a → Kept p b → Kept p (if t then a else b)
if-Kept true h k = h
if-Kept false h k = k

module _ (H : Msrs) (nr_cpus cpu : ℕ) where
  counter_clear-Kept : (i : ℕ) (p : Pmu H.Regs) → Kept p (counter_clear H nr_cpus cpu i p)
  unfolding counter_clear
  counter_clear-Kept i p =
      if-Kept (leb 2 i || leb nr_cpus cpu) (Kept-refl p)
        (record { fcounters_kept = refl; fcleared_kept = refl })

  evtsel_clear-Kept : (i : ℕ) (p : Pmu H.Regs) → Kept p (evtsel_clear H nr_cpus cpu i p)
  unfolding evtsel_clear
  evtsel_clear-Kept i p = record { fcounters_kept = refl; fcleared_kept = refl }

  evtsel_write-Kept : (i : ℕ) (p : Pmu H.Regs) → Kept p (evtsel_write H nr_cpus cpu i p)
  unfolding evtsel_write
  evtsel_write-Kept i p =
      if-Kept (ltb cpu nr_cpus) (record { fcounters_kept = refl; fcleared_kept = refl })
        (Kept-refl p)

  counter_disable-Kept : (i : ℕ) (p : Pmu H.Regs) → Kept p (counter_disable H nr_cpus cpu i p)
  unfolding counter_disable
  counter_disable-Kept i p =
      let c = evtsel_clear H nr_cpus cpu i p in
      let q = counter_clear H nr_cpus cpu i c in
      let k : Kept p q = Kept-trans (evtsel_clear-Kept i p) (counter_clear-Kept i c) in
      if-Kept (leb 2 i || leb nr_cpus cpu) (Kept-refl p) (
        if-Kept ((p.counters cpu i).enabled == 0) (Kept-refl p) (
          Kept-trans (record { fcounters_kept = k.fcounters_kept; fcleared_kept = k.fcleared_kept })
            (evtsel_write-Kept i (record q {
              evtsel = update_at q.evtsel cpu i (record (q.evtsel cpu i) { enabled = 0 });
              counters = update_at q.counters cpu i (record (q.counters cpu i) { enabled = 0 });
            }))))

  init_msr-Kept : (i : ℕ) (p : Pmu H.Regs) → Kept p (init_msr H nr_cpus cpu i p)
  unfolding init_msr
  init_msr-Kept i p =
      let a = evtsel_clear H nr_cpus cpu i p in
      let b = counter_disable H nr_cpus cpu i a in
      Kept-trans (evtsel_clear-Kept i p)
        (Kept-trans (counter_disable-Kept i a) (counter_clear-Kept i b))

  pub pmu_init_msrs-Kept : (p : Pmu H.Regs) → Kept p (pmu_init_msrs H nr_cpus cpu p)
  unfolding pmu_init_msrs
  pmu_init_msrs-Kept p =
      let copy = λ (i : ℕ) (q : Pmu H.Regs). record q {
        counters = update_at q.counters cpu i (q.counters 0 i);
        evtsel = update_at q.evtsel cpu i (q.evtsel 0 i);
      } in
      elim (Bool-cases (cpu == 0)) [
        | inl first ↦ rw first (for_up-Kept 2 (init_msr H nr_cpus cpu) p init_msr-Kept)
        | inr other ↦ rw other (
            Kept-trans
              (for_up-Kept 2 copy p (λ i q. record { fcounters_kept = refl; fcleared_kept = refl }))
              (for_up-Kept 2 (init_msr H nr_cpus cpu) (for_up 2 copy p) init_msr-Kept))
      ]
