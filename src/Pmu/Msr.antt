-- ===== src/Pmu/Msr.antt =====
-- Module/pmu/msr_pmu.c and intr_pmu.c, and pmu_init_msrs of main.c.
use seeker_scheduler.Common.{
  ℕ, ◌-◌, ◌%◌, ◌^◌, ◌&&◌, ◌||◌, none, some, ltb, leb, ◌==◌, if◌then◌else◌, ℤ, pos, negsuc, for_up,
  bit_or, bit_and,
}
use seeker_scheduler.Search.Scan.{first_up}
use seeker_scheduler.Kernel.{Msrs}
use seeker_scheduler.Pmu.{
  num_counters, evtsel_reserved_bits, evtsel_reserved_bits_high, msr_perf_global_status,
  msr_perf_global_ovf_ctrl, Pmu, update_at, u64, evtsel_low,
}

-- `cpu` is the cpu that runs, smp_processor_id; `nr_cpus` is NR_CPUS.
module _ (H : Msrs) (nr_cpus cpu : ℕ) where
  open H use {rdmsr, wrmsr}

  unfoldable pub evtsel_read : (evtsel_num : ℕ) → Pmu H.Regs → ℕ
  evtsel_read k p = (rdmsr cpu (p.evtsel cpu k).addr p.regs).low

  unfoldable pub evtsel_clear : (evtsel_num : ℕ) → Pmu H.Regs → Pmu H.Regs
  evtsel_clear k p =
      let a = (p.evtsel cpu k).addr in
      let v = rdmsr cpu a p.regs in
      record p {
        regs =
            wrmsr cpu a
              (record {
                low = bit_and v.low evtsel_reserved_bits;
                high = bit_and v.high evtsel_reserved_bits_high;
              })
              p.regs;
      }

  unfoldable pub evtsel_write : (evtsel_num : ℕ) → Pmu H.Regs → Pmu H.Regs
  unfolding evtsel_low
  evtsel_write k p =
      let e = p.evtsel cpu k in
      let v = rdmsr cpu e.addr p.regs in
      if ltb cpu nr_cpus
      then record p {
        regs =
            wrmsr cpu e.addr
              (record {
                low = bit_or (bit_and v.low evtsel_reserved_bits) (evtsel_low e);
                high = bit_and v.high evtsel_reserved_bits_high;
              })
              p.regs;
      }
      else p

  unfoldable pub counter_clear : (counter : ℕ) → Pmu H.Regs → Pmu H.Regs
  counter_clear i p = if leb num_counters i || leb nr_cpus cpu then p else record p {
    regs = wrmsr cpu (p.counters cpu i).addr (record { low = 0; high = 0 }) p.regs;
  }

  -- A round of `counter_read`.
  unfoldable pub read_counter : ℕ → Pmu H.Regs → Pmu H.Regs
  read_counter i p =
      let c = p.counters cpu i in
      let v = rdmsr cpu c.addr p.regs in
      if c.enabled == 0 then p else record p {
        counters = update_at p.counters cpu i (record c { low = v.low; high = v.high });
      }

  unfoldable pub counter_read : Pmu H.Regs → Pmu H.Regs
  unfolding read_counter
  counter_read p = if ltb cpu nr_cpus then for_up num_counters read_counter p else p

  unfoldable pub counter_disable : (counter : ℕ) → Pmu H.Regs → Pmu H.Regs
  unfolding evtsel_clear counter_clear evtsel_write
  counter_disable i p =
      let q = counter_clear i (evtsel_clear i p) in
      if leb num_counters i || leb nr_cpus cpu
      then p
      else if (p.counters cpu i).enabled == 0
      then p
      else evtsel_write i (record q {
        evtsel = update_at q.evtsel cpu i (record (q.evtsel cpu i) { enabled = 0 });
        counters = update_at q.counters cpu i (record (q.counters cpu i) { enabled = 0 });
      })

  -- The counter `i` is taken for an event. The fields of a register keep their own bits only.
  unfoldable pub enable_at : (i event ev_mask os : ℕ) → Pmu H.Regs → Pmu H.Regs
  unfolding evtsel_clear counter_clear evtsel_write
  enable_at i event ev_mask os p =
      let q = counter_clear i (evtsel_clear i p) in
      evtsel_write i (record q {
        counters =
            update_at q.counters cpu i
              (record (q.counters cpu i) { enabled = 1; event = event; mask = ev_mask });
        evtsel = update_at q.evtsel cpu i (record {
          ev_select = event % 2 ^ 8;
          ev_mask = ev_mask % 2 ^ 8;
          usr_flag = 1;
          os_flag = os % 2;
          edge = 0;
          pc_flag = 1;
          int_flag = 0;
          enabled = 1;
          inv_flag = 0;
          cnt_mask = 0;
          addr = (q.evtsel cpu i).addr;
        });
      })

  -- The result is the number of the counter, or -1.
  unfoldable pub counter_enable : (event ev_mask os : ℕ) → Pmu H.Regs → Pmu H.Regs × ℤ
  unfolding enable_at
  counter_enable event ev_mask os p =
      if leb nr_cpus cpu
      then (p, negsuc 0)
      else elim (first_up (λ i. (p.counters cpu i).enabled == 0) 0 num_counters) [
        | none ↦ (p, negsuc 0)
        | some i ↦ (enable_at i event ev_mask os p, pos i)
      ]

  -- pmu_init_msrs, with `warn` left out.
  unfoldable pub init_msr : ℕ → Pmu H.Regs → Pmu H.Regs
  unfolding evtsel_clear counter_disable counter_clear
  init_msr i p = counter_clear i (counter_disable i (evtsel_clear i p))

  unfoldable pub pmu_init_msrs : Pmu H.Regs → Pmu H.Regs
  unfolding init_msr
  pmu_init_msrs p =
      let copied =
        (if cpu == 0
          then p
          else for_up num_counters
              (λ i q. record q {
                counters = update_at q.counters cpu i (q.counters 0 i);
                evtsel = update_at q.evtsel cpu i (q.evtsel 0 i);
              })
              p) in
      for_up num_counters init_msr copied

  -- intr_pmu.c. The result is 0 or -1.
  pub pmu_configure_interrupt : (ctr low high : ℕ) → Pmu H.Regs → Pmu H.Regs × ℤ
  pmu_configure_interrupt ctr low high p = (
    if ltb ctr num_counters
        then record p {
          cleared =
              update_at p.cleared cpu ctr (record { low = low; high = high; all = u64 low high });
        }
        else p,
    negsuc 0,
  )

  pub pmu_enable_interrupt : (ctr : ℕ) → Pmu H.Regs → Pmu H.Regs × ℤ
  unfolding evtsel_write
  pmu_enable_interrupt ctr p =
      if ltb cpu nr_cpus && ltb ctr num_counters
      then (
        evtsel_write ctr (record p {
          evtsel = update_at p.evtsel cpu ctr (record (p.evtsel cpu ctr) { int_flag = 1 });
        }),
        pos 0,
      )
      else (p, negsuc 0)

  pub pmu_disable_interrupt : (ctr : ℕ) → Pmu H.Regs → Pmu H.Regs × ℤ
  unfolding evtsel_write
  pmu_disable_interrupt ctr p =
      if ltb ctr num_counters && ltb cpu nr_cpus
      then (
        evtsel_write ctr (record p {
          cleared = update_at p.cleared cpu ctr (record { low = 0; high = 0; all = 0 });
          evtsel = update_at p.evtsel cpu ctr (record (p.evtsel cpu ctr) { int_flag = 0 });
        }),
        pos 0,
      )
      else (p, negsuc 0)

  -- The bit of the counter's overflow, or -1.
  pub pmu_is_interrupt : (ctr : ℕ) → Pmu H.Regs → ℤ
  pmu_is_interrupt ctr p =
      if leb num_counters ctr
      then negsuc 0
      else pos (bit_and (rdmsr cpu msr_perf_global_status p.regs).low (2 ^ ctr))

  pub pmu_clear_ovf_status : (ctr : ℕ) → Pmu H.Regs → Pmu H.Regs × ℤ
  pmu_clear_ovf_status ctr p =
      let v = rdmsr cpu msr_perf_global_ovf_ctrl p.regs in
      if leb num_counters ctr then (p, negsuc 0) else (
        record p {
          regs =
              wrmsr cpu msr_perf_global_ovf_ctrl
                (record v { low = bit_and v.low (2 ^ 32 - 1 - 2 ^ ctr) }) p.regs;
        },
        pos 0,
      )

-- For a counter that exists; otherwise 0.
unfoldable pub get_counter_data : {R : Type 0} → (counter cpu_id : ℕ) → Pmu R → ℕ
get_counter_data i c p =
    if leb num_counters i then 0 else u64 (p.counters c i).low (p.counters c i).high
