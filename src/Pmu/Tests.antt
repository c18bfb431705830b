-- ===== src/Pmu/Tests.antt =====
-- A machine with one cpu, whose first counter is in use.
use seeker_scheduler.Common.{
  ℕ, ◌+◌, ◌*◌, ◌^◌, ◌<◌, ◌≡◌, ◌≢◌, refl, ◌⊎◌, ◌==◌, if◌then◌else◌, pos, negsuc, for_up, arith,
}
use seeker_scheduler.Search.Scan.{first_up}
use seeker_scheduler.Kernel.{test_msrs}
use seeker_scheduler.Pmu.{Evtsel, Pmu, num_counters, evtsel_low, pmu_start}
use seeker_scheduler.Pmu.Msr.{
  evtsel_read, evtsel_write, counter_enable, counter_disable, counter_read, get_counter_data,
  pmu_init_msrs,
}
use seeker_scheduler.Pmu.Fixed.{control_read, control_write}
use seeker_scheduler.Pmu.Fields.{
  Fits, Holds, FlagsFit, HoldsFlags, evtsel_write-evtsel_read, control_write-control_read,
}
use seeker_scheduler.Pmu.Enable.{
  Programmed, event_description, counter_enable_lem, counter_disable_lem,
}
use seeker_scheduler.Pmu.Read.{counter_read-get_counter_data}

abbrev description : ℕ → Evtsel
description k = record {
  ev_select = 0xC0;
  ev_mask = 1;
  usr_flag = 1;
  os_flag = 0;
  edge = 0;
  pc_flag = 1;
  int_flag = 0;
  enabled = 1;
  inv_flag = 0;
  cnt_mask = 0;
  addr = 0x186 + k;
}

abbrev machine : Pmu test_msrs.Regs
machine = record {
  regs = λ cpu a. record { low = 2 ^ 21 + 5; high = 7 };
  evtsel = λ cpu k. description k;
  counters = λ cpu k. record {
    low = 0;
    high = 0;
    addr = 0xC1 + k;
    event = 0;
    mask = 0;
    enabled = if k == 0 then 1 else 0;
  };
  cleared = λ cpu k. record { low = 0; high = 0; all = 0 };
  fcontrol = λ cpu. record {
    pmi0 = 0;
    os0 = 1;
    usr0 = 1;
    pmi1 = 0;
    os1 = 0;
    usr1 = 1;
    pmi2 = 1;
    os2 = 0;
    usr2 = 1;
  };
  fcounters = λ cpu k. record { low = 0; high = 0; addr = 0x309 + k };
  fcleared = λ cpu k. record { low = 0; high = 0; all = 0 };
}

description-Fits : (k : ℕ) → Fits (description k)
description-Fits k = record {
  ev_select_fits = omega arith;
  ev_mask_fits = omega arith;
  usr_flag_fits = omega arith;
  os_flag_fits = omega arith;
  edge_fits = omega arith;
  pc_flag_fits = omega arith;
  int_flag_fits = omega arith;
  enabled_fits = omega arith;
  inv_flag_fits = omega arith;
  cnt_mask_fits = omega arith;
}

evtsel_write-evtsel_read_example :
    Holds
      (evtsel_read test_msrs 1 0 0 (evtsel_write test_msrs 1 0 0 machine))
      (evtsel_read test_msrs 1 0 0 machine)
      (description 0)
evtsel_write-evtsel_read_example =
    evtsel_write-evtsel_read test_msrs 1 0 0 machine (omega arith) (description-Fits 0)

-- The word that is written, with the reserved bit of the register.
written_word : evtsel_read test_msrs 1 0 0 (evtsel_write test_msrs 1 0 0 machine) ≡ 0x6901C0
unfolding evtsel_read evtsel_write evtsel_low
written_word = refl

flags_fit : FlagsFit (machine.fcontrol 0)
flags_fit = record {
  pmi0_fits = omega arith;
  os0_fits = omega arith;
  usr0_fits = omega arith;
  pmi1_fits = omega arith;
  os1_fits = omega arith;
  usr1_fits = omega arith;
  pmi2_fits = omega arith;
  os2_fits = omega arith;
  usr2_fits = omega arith;
}

control_write-control_read_example :
    HoldsFlags
      (control_read test_msrs 1 0 (control_write test_msrs 1 0 machine))
      (machine.fcontrol 0)
control_write-control_read_example =
    control_write-control_read test_msrs 1 0 machine (omega arith) flags_fit

counter_enable_lem_example :
    let (q, result) = counter_enable test_msrs 1 0 0x3C 0 0 machine in
    ((i : ℕ) × (i < num_counters)
      × (result ≡ pos i)
      × ((machine.counters 0 i).enabled ≡ 0)
      × ((j : ℕ) → j < i → (machine.counters 0 j).enabled ≢ 0)
      × Programmed test_msrs 1 0
          (omega arith)
          machine
          q
          i
          (record (machine.counters 0 i) { enabled = 1; event = 0x3C; mask = 0 })
          (event_description test_msrs 1 0 (omega arith) 0x3C 0 0 (machine.evtsel 0 i)))
    ⊎ ((result ≡ negsuc 0)
        × (q ≡ machine)
        × ((j : ℕ) → j < num_counters → (machine.counters 0 j).enabled ≢ 0))
counter_enable_lem_example = counter_enable_lem test_msrs 1 0 (omega arith) 0x3C 0 0 machine

-- The second counter is the one that is taken.
second_taken : (counter_enable test_msrs 1 0 0x3C 0 0 machine).1 ≡ pos 1
unfolding counter_enable first_up
second_taken = refl

counter_disable_lem_example :
    Programmed test_msrs 1 0
      (omega arith)
      machine
      (counter_disable test_msrs 1 0 0 machine)
      0
      (record (machine.counters 0 0) { enabled = 0 })
      (record (machine.evtsel 0 0) { enabled = 0 })
counter_disable_lem_example =
    counter_disable_lem test_msrs 1 0 (omega arith) 0 machine (omega arith) (λ e. omega arith)
      (description-Fits 0)

counter_read-get_counter_data_run :
    get_counter_data 0 0 (counter_read test_msrs 1 0 machine) ≡ 7 * 2 ^ 32 + (2 ^ 21 + 5)
counter_read-get_counter_data_run =
    counter_read-get_counter_data test_msrs 1 0 machine 0 (omega arith) (omega arith) (omega arith)

-- On another cpu than 0, pmu_init_msrs fetches the addresses, and leaves the counters free.
second_cpu :
    (pmu_init_msrs test_msrs 4 2 (pmu_start machine.regs)).evtsel 2 1
    ≡ (pmu_start machine.regs).evtsel 0 1
unfolding pmu_init_msrs pmu_start for_up
second_cpu = refl
