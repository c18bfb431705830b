-- ===== src/Pmu.antt =====
-- Module/pmu: the performance counters, as msr_pmu.c and intr_pmu.c drive the programmable ones, and
-- msr_fpmu.c and intr_fpmu.c the fixed ones, on the architecture ARCH_C2D.
pub mod Msr
pub mod Fixed
pub mod Fields
pub mod Enable
pub mod Read
pub mod Init
mod Tests
use seeker_scheduler.Common.{
  ℕ, zero, suc, ◌+◌, ◌-◌, ◌*◌, ◌/◌, ◌%◌, ◌^◌, Bool, true, false, not, ◌&&◌, ◌||◌, Option, none,
  some, ltb, leb, ◌==◌, if◌then◌else◌, ℤ, pos, negsuc, update, for_up, bit_or, bit_and,
}
use seeker_scheduler.Search.Scan.{first_up}
use seeker_scheduler.Kernel.{Reg, Msrs}

-- NUM_COUNTERS, NUM_FIXED_COUNTERS
abbrev pub num_counters : ℕ
num_counters = 2

abbrev pub num_fixed_counters : ℕ
num_fixed_counters = 3

-- EVTSEL_RESERVED_BITS, EVTSEL_RESERVED_BITS_HIGH
abbrev pub evtsel_reserved_bits : ℕ
evtsel_reserved_bits = 2 ^ 21

abbrev pub evtsel_reserved_bits_high : ℕ
evtsel_reserved_bits_high = 2 ^ 32 - 1

-- FIXSEL_RESERVED_BITS: all bits but 0, 1, 3, 4, 5, 7, 8, 9 and 11, by the macro's own terms, where
-- `BITS_AT(3,3)` and `BITS_AT(3,7)` are three bits each.
abbrev pub fixsel_reserved_bits : ℕ
fixsel_reserved_bits = 2 ^ 32 - 1 - (3 + 7 * 2 ^ 3 + 7 * 2 ^ 7 + 2 ^ 11)

-- MSR_PERF_FIXED_CTR_CTRL, MSR_PERF_GLOBAL_STATUS, MSR_PERF_GLOBAL_OVF_CTRL
abbrev pub msr_perf_fixed_ctr_ctrl : ℕ
msr_perf_fixed_ctr_ctrl = 0x38D

abbrev pub msr_perf_global_status : ℕ
msr_perf_global_status = 0x38E

abbrev pub msr_perf_global_ovf_ctrl : ℕ
msr_perf_global_ovf_ctrl = 0x390

-- evtsel_t; its fields hold 8, 8, 1, 1, 1, 1, 1, 1, 1 and 8 bits.
pub record Evtsel : Type 0 where
  pub ev_select : ℕ
  pub ev_mask : ℕ
  pub usr_flag : ℕ
  pub os_flag : ℕ
  pub edge : ℕ
  pub pc_flag : ℕ
  pub int_flag : ℕ
  pub enabled : ℕ
  pub inv_flag : ℕ
  pub cnt_mask : ℕ
  pub addr : ℕ

-- counter_t
pub record Counter : Type 0 where
  pub low : ℕ
  pub high : ℕ
  pub addr : ℕ
  pub event : ℕ
  pub mask : ℕ
  pub enabled : ℕ

-- cleared_t, fcleared_t
pub record Cleared : Type 0 where
  pub low : ℕ
  pub high : ℕ
  pub all : ℕ

-- fixctrl_t
pub record Fixctrl : Type 0 where
  pub pmi0 : ℕ
  pub os0 : ℕ
  pub usr0 : ℕ
  pub pmi1 : ℕ
  pub os1 : ℕ
  pub usr1 : ℕ
  pub pmi2 : ℕ
  pub os2 : ℕ
  pub usr2 : ℕ

-- fcounter_t
pub record Fcounter : Type 0 where
  pub low : ℕ
  pub high : ℕ
  pub addr : ℕ

-- The arrays of the module, by cpu and counter, and the cpus' registers.
pub record Pmu (R : Type 0) : Type 0 where
  pub regs : R
  pub evtsel : ℕ → ℕ → Evtsel
  pub counters : ℕ → ℕ → Counter
  pub cleared : ℕ → ℕ → Cleared
  pub fcontrol : ℕ → Fixctrl
  pub fcounters : ℕ → ℕ → Fcounter
  pub fcleared : ℕ → ℕ → Cleared

-- `a[i][j] = v`
abbrev pub update_at : {A : Type 0} → (ℕ → ℕ → A) → ℕ → ℕ → A → ℕ → ℕ → A
update_at a i j v = update a i (update (a i) j v)

-- U64(low, high)
abbrev pub u64 : ℕ → ℕ → ℕ
u64 low high = bit_or low (high * 2 ^ 32)

-- The low half of an event select register, but for its reserved bit.
unfoldable pub evtsel_low : Evtsel → ℕ
evtsel_low e =
    let a0 = (e.ev_select % 2 ^ 8) * 2 ^ 0 in
    let a1 = bit_or a0 (e.ev_mask * 2 ^ 8) in
    let a2 = bit_or a1 (e.usr_flag * 2 ^ 16) in
    let a3 = bit_or a2 (e.os_flag * 2 ^ 17) in
    let a4 = bit_or a3 (e.edge * 2 ^ 18) in
    let a5 = bit_or a4 (e.pc_flag * 2 ^ 19) in
    let a6 = bit_or a5 (e.int_flag * 2 ^ 20) in
    let a7 = bit_or a6 (e.enabled * 2 ^ 22) in
    let a8 = bit_or a7 (e.inv_flag * 2 ^ 23) in bit_or a8 (e.cnt_mask * 2 ^ 24)

-- The low half of the control register of the fixed counters.
unfoldable pub control_low : Fixctrl → ℕ
control_low c =
    let a0 = c.os0 * 2 ^ 0 in
    let a1 = bit_or a0 (c.usr0 * 2 ^ 1) in
    let a2 = bit_or a1 (c.pmi0 * 2 ^ 3) in
    let a3 = bit_or a2 (c.os1 * 2 ^ 4) in
    let a4 = bit_or a3 (c.usr1 * 2 ^ 5) in
    let a5 = bit_or a4 (c.pmi1 * 2 ^ 7) in
    let a6 = bit_or a5 (c.os2 * 2 ^ 8) in
    let a7 = bit_or a6 (c.usr2 * 2 ^ 9) in bit_or a7 (c.pmi2 * 2 ^ 11)

-- The arrays as the module is loaded: only cpu 0 has the addresses of the registers.
unfoldable pub pmu_start : {R : Type 0} → R → Pmu R
pmu_start regs = record {
  regs = regs;
  evtsel = λ cpu k. record {
    ev_select = 0;
    ev_mask = 0;
    usr_flag = 0;
    os_flag = 0;
    edge = 0;
    pc_flag = 0;
    int_flag = 0;
    enabled = 0;
    inv_flag = 0;
    cnt_mask = 0;
    addr = if cpu == 0 then 0x186 + k else 0;
  };
  counters = λ cpu k. record {
    low = 0;
    high = 0;
    addr = if cpu == 0 then 0xC1 + k else 0;
    event = if cpu == 0 then k else 0;
    mask = 0;
    enabled = 0;
  };
  cleared = λ cpu k. record { low = 0; high = 0; all = 0 };
  fcontrol = λ cpu. record {
    pmi0 = 0;
    os0 = 0;
    usr0 = 0;
    pmi1 = 0;
    os1 = 0;
    usr1 = 0;
    pmi2 = 0;
    os2 = 0;
    usr2 = 0;
  };
  fcounters = λ cpu k. record { low = 0; high = 0; addr = if cpu == 0 then 0x309 + k else 0 };
  fcleared = λ cpu k. record { low = 0; high = 0; all = 0 };
}
