-- ===== src/Pmu/Enable.antt =====
-- Taking and freeing the programmable counters.
use seeker_scheduler.Common.{
  ℕ, ◌%◌, ◌^◌, ◌<◌, ◌≡◌, ◌≢◌, refl, sym, ap, subst, ◌∙◌, ◌⊎◌, inl, inr, Bool-cases, false, ◌||◌,
  leb, ◌==◌, if◌then◌else◌, pos, negsuc, update, update_same, update_other, lt→ltb, arith,
}
use seeker_scheduler.Search.Scan.{first_up_cases}
use seeker_scheduler.Kernel.{Msrs}
use seeker_scheduler.Pmu.{Evtsel, Counter, Pmu, num_counters, update_at}
use seeker_scheduler.Pmu.Msr.{
  evtsel_read, evtsel_clear, evtsel_write, counter_clear, counter_enable, counter_disable,
  enable_at,
}
use seeker_scheduler.Pmu.Fields.{Fits, Holds, evtsel_write-evtsel_read}

pub update_at_same : {A : Type 0} (f : ℕ → ℕ → A) (i j : ℕ) (v : A) → update_at f i j v i j ≡ v
update_at_same f i j v = ap (λ g. g j) (update_same f i (update (f i) j v)) ∙ update_same (f i) j v

pub update_at_other :
    {A : Type 0} (f : ℕ → ℕ → A) (i j k : ℕ) (v : A) → j ≢ k → update_at f i j v i k ≡ f i k
update_at_other f i j k v ne =
    ap (λ g. g k) (update_same f i (update (f i) j v)) ∙ update_other (f i) j k v ne

-- Two states of the driver that differ in the cpus' registers only.
record SameArrays {R : Type 0} (p q : Pmu R) : Type 0 where
  evtsel_kept : q.evtsel ≡ p.evtsel
  counters_kept : q.counters ≡ p.counters

module _ (H : Msrs) (nr_cpus cpu : ℕ) (l : cpu < nr_cpus) where
  write-SameArrays : (k : ℕ) (p : Pmu H.Regs) → SameArrays p (evtsel_write H nr_cpus cpu k p)
  unfolding evtsel_write
  write-SameArrays k p =
      rw (lt→ltb cpu nr_cpus l) (record { evtsel_kept = refl; counters_kept = refl })

  clear-SameArrays :
      (i : ℕ) (p : Pmu H.Regs)
      → SameArrays p (counter_clear H nr_cpus cpu i (evtsel_clear H nr_cpus cpu i p))
  unfolding counter_clear evtsel_clear
  clear-SameArrays i p = elim (Bool-cases (leb num_counters i || leb nr_cpus cpu)) [
    | inl out ↦ rw out (record { evtsel_kept = refl; counters_kept = refl })
    | inr inside ↦ rw inside (record { evtsel_kept = refl; counters_kept = refl })
  ]

  -- The counter `i` has been written into the arrays, and then into its register.
  pub record Programmed (p q : Pmu H.Regs) (i : ℕ) (c : Counter) (e : Evtsel) : Type 0 where
    pub counter_now : q.counters cpu i ≡ c
    pub evtsel_now : q.evtsel cpu i ≡ e
    pub other_counters : (j : ℕ) → i ≢ j → q.counters cpu j ≡ p.counters cpu j
    pub other_evtsels : (j : ℕ) → i ≢ j → q.evtsel cpu j ≡ p.evtsel cpu j
    pub register : (old : ℕ) × Holds (evtsel_read H nr_cpus cpu i q) old e

  program-Programmed :
      (p q : Pmu H.Regs) (i : ℕ) (c : Counter) (e : Evtsel)
      → SameArrays p q
      → Fits e
      → Programmed p
          (evtsel_write H nr_cpus cpu i (record q {
            evtsel = update_at q.evtsel cpu i e;
            counters = update_at q.counters cpu i c;
          }))
          i
          c
          e
  program-Programmed p q i c e s f =
      let m : Pmu H.Regs = record q {
        evtsel = update_at q.evtsel cpu i e;
        counters = update_at q.counters cpu i c;
      } in
      let w = write-SameArrays i m in
      let now : m.evtsel cpu i ≡ e = update_at_same q.evtsel cpu i e in
      record {
        counter_now = ap (λ f. f cpu i) w.counters_kept ∙ update_at_same q.counters cpu i c;
        evtsel_now = ap (λ f. f cpu i) w.evtsel_kept ∙ now;
        other_counters = λ j ne.
            ap (λ f. f cpu j) w.counters_kept
            ∙ update_at_other q.counters cpu i j c ne
            ∙ ap (λ f. f cpu j) s.counters_kept;
        other_evtsels = λ j ne.
            ap (λ f. f cpu j) w.evtsel_kept
            ∙ update_at_other q.evtsel cpu i j e ne
            ∙ ap (λ f. f cpu j) s.evtsel_kept;
        register = (evtsel_read H nr_cpus cpu i m, held m now);
      }
    where
      held :
          (m : Pmu H.Regs)
          → m.evtsel cpu i ≡ e
          → Holds
              (evtsel_read H nr_cpus cpu i (evtsel_write H nr_cpus cpu i m))
              (evtsel_read H nr_cpus cpu i m)
              e
      held m now =
          subst
            (λ e.
              Holds (evtsel_read H nr_cpus cpu i (evtsel_write H nr_cpus cpu i m))
                (evtsel_read H nr_cpus cpu i m) e)
            now (evtsel_write-evtsel_read H nr_cpus cpu i m l (subst Fits (sym now) f))

  abbrev enabled_counter : (event ev_mask : ℕ) → Counter → Counter
  enabled_counter event ev_mask c = record c { enabled = 1; event = event; mask = ev_mask }

  -- The description of an event, as it is set up.
  abbrev pub event_description : (event ev_mask os : ℕ) → Evtsel → Evtsel
  event_description event ev_mask os e = record {
    ev_select = event % 2 ^ 8;
    ev_mask = ev_mask % 2 ^ 8;
    usr_flag = 1;
    os_flag = os % 2;
    edge = 0;
    pc_flag = 1;
    int_flag = 0;
    enabled = 1;
    inv_flag = 0;
    cnt_mask = 0;
    addr = e.addr;
  }

  event-Fits : (event ev_mask os : ℕ) (e : Evtsel) → Fits (event_description event ev_mask os e)
  event-Fits event ev_mask os e = record {
    ev_select_fits = omega arith;
    ev_mask_fits = omega arith;
    usr_flag_fits = omega arith;
    os_flag_fits = omega arith;
    edge_fits = omega arith;
    pc_flag_fits = omega arith;
    int_flag_fits = omega arith;
    enabled_fits = omega arith;
    inv_flag_fits = omega arith;
    cnt_mask_fits = omega arith;
  }

  enable_at-Programmed :
      (i event ev_mask os : ℕ) (p : Pmu H.Regs)
      → Programmed p
          (enable_at H nr_cpus cpu i event ev_mask os p)
          i
          (enabled_counter event ev_mask (p.counters cpu i))
          (event_description event ev_mask os (p.evtsel cpu i))
  unfolding enable_at
  enable_at-Programmed i event ev_mask os p =
      let q = counter_clear H nr_cpus cpu i (evtsel_clear H nr_cpus cpu i p) in
      let s = clear-SameArrays i p in
      subst
        (λ c.
          Programmed p (enable_at H nr_cpus cpu i event ev_mask os p) i
            (enabled_counter event ev_mask c) (event_description event ev_mask os (p.evtsel cpu i)))
        (ap (λ f. f cpu i) s.counters_kept)
        (subst
          (λ e.
            Programmed p (enable_at H nr_cpus cpu i event ev_mask os p) i
              (enabled_counter event ev_mask (q.counters cpu i))
              (event_description event ev_mask os e))
          (ap (λ f. f cpu i) s.evtsel_kept)
          (program-Programmed p q i (enabled_counter event ev_mask (q.counters cpu i))
            (event_description event ev_mask os (q.evtsel cpu i)) s
            (event-Fits event ev_mask os (q.evtsel cpu i))))

  -- `counter_enable` takes the first counter that is free, and leaves the others alone: its number is
  -- the result, and the counter is set up for the event and its description stands in its event select register, field by field. If no
  -- counter is free the result is -1, and nothing changes.
  pub counter_enable_lem :
      (event ev_mask os : ℕ) (p : Pmu H.Regs)
      → let (q, result) = counter_enable H nr_cpus cpu event ev_mask os p in
        ((i : ℕ) × (i < num_counters)
          × (result ≡ pos i)
          × ((p.counters cpu i).enabled ≡ 0)
          × ((j : ℕ) → j < i → (p.counters cpu j).enabled ≢ 0)
          × Programmed p q i
              (enabled_counter event ev_mask (p.counters cpu i))
              (event_description event ev_mask os (p.evtsel cpu i)))
        ⊎ ((result ≡ negsuc 0)
            × (q ≡ p)
            × ((j : ℕ) → j < num_counters → (p.counters cpu j).enabled ≢ 0))
  unfolding counter_enable
  counter_enable_lem event ev_mask os p =
      let there : leb nr_cpus cpu ≡ false = ground arith in
      elim (first_up_cases (λ i. (p.counters cpu i).enabled == 0) 0 num_counters) [
        | inl (e, busy) ↦ rw (there, e) (inr (refl, refl, λ j h z. ground (arith, busy j)))
        | inr (i, e, g, h, free, busy) ↦
            rw (there, e)
              (inl (
                i,
                h,
                refl,
                ground arith,
                λ j s z. ground (arith, busy j),
                enable_at-Programmed i event ev_mask os p,
              ))
      ]

  off-Fits : (e : Evtsel) → Fits e → Fits (record e { enabled = 0 })
  off-Fits e f = record {
    ev_select_fits = f.ev_select_fits;
    ev_mask_fits = f.ev_mask_fits;
    usr_flag_fits = f.usr_flag_fits;
    os_flag_fits = f.os_flag_fits;
    edge_fits = f.edge_fits;
    pc_flag_fits = f.pc_flag_fits;
    int_flag_fits = f.int_flag_fits;
    enabled_fits = omega arith;
    inv_flag_fits = f.inv_flag_fits;
    cnt_mask_fits = f.cnt_mask_fits;
  }

  -- A counter that is enabled, with a description that fits, is free after `counter_disable`: its flag is cleared in the array and in its
  -- event select register, its event is kept, and the other counters are left alone.
  pub counter_disable_lem :
      (i : ℕ) (p : Pmu H.Regs)
      → i < num_counters
      → (p.counters cpu i).enabled ≢ 0
      → Fits (p.evtsel cpu i)
      → Programmed p
          (counter_disable H nr_cpus cpu i p)
          i
          (record (p.counters cpu i) { enabled = 0 })
          (record (p.evtsel cpu i) { enabled = 0 })
  unfolding counter_disable
  counter_disable_lem i p h on f =
      let q = counter_clear H nr_cpus cpu i (evtsel_clear H nr_cpus cpu i p) in
      let s = clear-SameArrays i p in
      let inside : (leb num_counters i || leb nr_cpus cpu) ≡ false = ground arith in
      let busy : ((p.counters cpu i).enabled == 0) ≡ false = ground arith in
      let off_c = λ (c : Counter). record c { enabled = 0 } in
      let off_e = λ (e : Evtsel). record e { enabled = 0 } in
      let x = evtsel_write H nr_cpus cpu i (record q {
        evtsel = update_at q.evtsel cpu i (off_e (q.evtsel cpu i));
        counters = update_at q.counters cpu i (off_c (q.counters cpu i));
      }) in
      let step : counter_disable H nr_cpus cpu i p ≡ x =
        ap (λ b. if b then p else if (p.counters cpu i).enabled == 0 then p else x) inside
        ∙ ap (λ b. if b then p else x) busy in
      let ec : q.counters cpu i ≡ p.counters cpu i = ap (λ f. f cpu i) s.counters_kept in
      let ee : q.evtsel cpu i ≡ p.evtsel cpu i = ap (λ f. f cpu i) s.evtsel_kept in
      subst (λ r. Programmed p r i (off_c (p.counters cpu i)) (off_e (p.evtsel cpu i))) (sym step)
        (subst (λ c. Programmed p x i (off_c c) (off_e (p.evtsel cpu i))) ec
          (subst (λ e. Programmed p x i (off_c (q.counters cpu i)) (off_e e)) ee
            (program-Programmed p q i (off_c (q.counters cpu i)) (off_e (q.evtsel cpu i)) s
              (off-Fits (q.evtsel cpu i) (subst Fits (sym ee) f)))))
