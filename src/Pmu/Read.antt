-- ===== src/Pmu/Read.antt =====
-- Reading the programmable counters.
use seeker_scheduler.Common.{
  ℕ, ◌+◌, ◌*◌, ◌^◌, ◌≤◌, ◌<◌, ◌≡◌, ◌≢◌, refl, sym, ap, ◌∙◌, inl, inr, Bool-cases, true, false, leb,
  ◌==◌, if◌then◌else◌, for_up_inv, bit_or-above, lt→ltb, arith,
}
use seeker_scheduler.Kernel.{Msrs}
use seeker_scheduler.Pmu.{Counter, Pmu, num_counters, u64}
use seeker_scheduler.Pmu.Msr.{read_counter, counter_read, get_counter_data}
use seeker_scheduler.Pmu.Enable.{update_at_same, update_at_other}

module _ (H : Msrs) (nr_cpus cpu : ℕ) (p : Pmu H.Regs) where
  -- A counter with what its register holds, if it is enabled.
  abbrev filled : Counter → Counter
  filled c =
      let v = H.rdmsr cpu c.addr p.regs in
      if c.enabled == 0 then c else record c { low = v.low; high = v.high }

  abbrev refreshed : H.Regs → Counter → Counter
  refreshed s c = let v = H.rdmsr cpu c.addr s in record c { low = v.low; high = v.high }

  filled_off : (c : Counter) → (c.enabled == 0) ≡ true → c ≡ filled c
  filled_off c e = rw e refl

  filled_on : (c : Counter) → (c.enabled == 0) ≡ false → refreshed p.regs c ≡ filled c
  filled_on c e = rw e refl

  -- After the counters below `m`.
  record ReadUpTo (m : ℕ) (q : Pmu H.Regs) : Type 0 where
    regs_kept : q.regs ≡ p.regs
    done : (j : ℕ) → j < m → q.counters cpu j ≡ filled (p.counters cpu j)
    ahead : (j : ℕ) → m ≤ j → q.counters cpu j ≡ p.counters cpu j

  read_counter_lem :
      (m : ℕ) (q : Pmu H.Regs)
      → q.regs ≡ p.regs
      → q.counters cpu m ≡ p.counters cpu m
      → ((read_counter H nr_cpus cpu m q).regs ≡ p.regs)
        × ((read_counter H nr_cpus cpu m q).counters cpu m ≡ filled (p.counters cpu m))
        × ((j : ℕ) → m ≢ j → (read_counter H nr_cpus cpu m q).counters cpu j ≡ q.counters cpu j)
  unfolding read_counter
  read_counter_lem m q r c =
      let d = q.counters cpu m in
      let v = H.rdmsr cpu d.addr q.regs in
      let full : Counter = record d { low = v.low; high = v.high } in
      elim (Bool-cases (d.enabled == 0)) [
        | inl off ↦ rw off (
          r,
          c ∙ filled_off (p.counters cpu m) (ap (λ x. x.enabled == 0) (sym c) ∙ off),
          λ j ne. refl,
        )
        | inr on ↦ rw on (
          r,
          update_at_same q.counters cpu m full
              ∙ ap (λ s. refreshed s d) r
              ∙ ap (refreshed p.regs) c
              ∙ filled_on (p.counters cpu m) (ap (λ x. x.enabled == 0) (sym c) ∙ on),
          λ j ne. update_at_other q.counters cpu m j full ne,
        )
      ]

  counter_read-ReadUpTo : cpu < nr_cpus → ReadUpTo num_counters (counter_read H nr_cpus cpu p)
  unfolding counter_read
  counter_read-ReadUpTo l = rw (lt→ltb cpu nr_cpus l) (
      for_up_inv ReadUpTo num_counters (read_counter H nr_cpus cpu) p
        (record { regs_kept = refl; done = λ j h. absurd (omega arith); ahead = λ j h. refl })
        (λ m q h v.
          let (r, here, others) = read_counter_lem m q v.regs_kept (v.ahead m (omega arith)) in
          record {
            regs_kept = r;
            done = λ j s. elim (Bool-cases (m == j)) [
              | inl now ↦ let e : j ≡ m = ground arith in rw e here
              | inr past ↦ others j (λ e. ground arith) ∙ v.done j (ground arith)
            ];
            ahead = λ j s. others j (λ e. omega arith) ∙ v.ahead j (omega arith);
          }))

  -- After `counter_read`, `get_counter_data` gives for a counter that is enabled the whole number in its
  -- register, whose halves have 32 bits, and for one that is not what was read of it before.
  pub counter_read-get_counter_data :
      (i : ℕ)
      → cpu < nr_cpus
      → i < num_counters
      → (H.rdmsr cpu (p.counters cpu i).addr p.regs).low < 2 ^ 32
      → let v = H.rdmsr cpu (p.counters cpu i).addr p.regs in
        get_counter_data i cpu (counter_read H nr_cpus cpu p) ≡ (
          if (p.counters cpu i).enabled == 0
          then get_counter_data i cpu p
          else v.high * 2 ^ 32 + v.low)
  unfolding get_counter_data
  counter_read-get_counter_data i l h small =
      let there : leb num_counters i ≡ false = ground arith in
      let c = p.counters cpu i in
      let v = H.rdmsr cpu c.addr p.regs in
      let q = (counter_read-ReadUpTo l).done i h in
      let value = λ (x : Counter). u64 x.low x.high in
      elim (Bool-cases (c.enabled == 0)) [
        | inl off ↦ rw (there, off) (ap value (q ∙ sym (filled_off c off)))
        | inr on ↦
            rw (there, on)
              (ap value (q ∙ sym (filled_on c on)) ∙ bit_or-above 32 v.high v.low small)
      ]
