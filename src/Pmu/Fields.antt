-- ===== src/Pmu/Fields.antt =====
-- The fields of the registers, as they are written and read back.
use seeker_scheduler.Common.{
  ℕ, ◌+◌, ◌*◌, ◌/◌, ◌%◌, ◌^◌, ◌<◌, ◌≡◌, refl, ap, ◌∙◌, bit_or, bit_and, bit_or-above, bit_or-split,
  bit_and-bit, zero-bit_or, lt→ltb, ==-refl, arith,
}
use seeker_scheduler.Kernel.{Reg, Msrs}
use seeker_scheduler.Pmu.{
  Evtsel, Fixctrl, Pmu, evtsel_low, control_low, evtsel_reserved_bits, evtsel_reserved_bits_high,
  msr_perf_fixed_ctr_ctrl,
}
use seeker_scheduler.Pmu.Msr.{evtsel_read, evtsel_write}
use seeker_scheduler.Pmu.Fixed.{control_read, control_write}

-- The bits of a register from `at` on, `width` of them.
abbrev pub field : (v at width : ℕ) → ℕ
field v at width = v / 2 ^ at % 2 ^ width

-- Each field fits in its bits.
pub record Fits (e : Evtsel) : Type 0 where
  pub ev_select_fits : e.ev_select < 2 ^ 8
  pub ev_mask_fits : e.ev_mask < 2 ^ 8
  pub usr_flag_fits : e.usr_flag < 2
  pub os_flag_fits : e.os_flag < 2
  pub edge_fits : e.edge < 2
  pub pc_flag_fits : e.pc_flag < 2
  pub int_flag_fits : e.int_flag < 2
  pub enabled_fits : e.enabled < 2
  pub inv_flag_fits : e.inv_flag < 2
  pub cnt_mask_fits : e.cnt_mask < 2 ^ 8

-- The fields below and above the reserved bit.
abbrev low_fields : Evtsel → ℕ
low_fields e =
    e.int_flag * 2 ^ 20
    + (e.pc_flag * 2 ^ 19
        + (e.edge * 2 ^ 18
            + (e.os_flag * 2 ^ 17 + (e.usr_flag * 2 ^ 16 + (e.ev_mask * 2 ^ 8 + e.ev_select)))))

abbrev high_fields : Evtsel → ℕ
high_fields e = e.cnt_mask * 4 + (e.inv_flag * 2 + e.enabled)

evtsel_low_sum : (e : Evtsel) → Fits e → evtsel_low e ≡ high_fields e * 2 ^ 22 + low_fields e
unfolding evtsel_low
evtsel_low_sum e f =
    let s0 : (e.ev_select % 2 ^ 8) * 2 ^ 0 ≡ e.ev_select = omega (arith, f.ev_select_fits) in
    let x1 = e.ev_mask * 2 ^ 8 + e.ev_select in
    let x2 = e.usr_flag * 2 ^ 16 + x1 in
    let x3 = e.os_flag * 2 ^ 17 + x2 in
    let x4 = e.edge * 2 ^ 18 + x3 in
    let x5 = e.pc_flag * 2 ^ 19 + x4 in
    let x6 = e.int_flag * 2 ^ 20 + x5 in
    let x7 = e.enabled * 2 ^ 22 + x6 in
    let x8 = e.inv_flag * 2 ^ 23 + x7 in
    rw
      (
        s0,
        bit_or-above 8 e.ev_mask e.ev_select f.ev_select_fits,
        bit_or-above 16 e.usr_flag x1 (ground arith),
        bit_or-above 17 e.os_flag x2 (ground arith),
        bit_or-above 18 e.edge x3 (ground arith),
        bit_or-above 19 e.pc_flag x4 (ground arith),
        bit_or-above 20 e.int_flag x5 (ground arith),
        bit_or-above 22 e.enabled x6 (ground arith),
        bit_or-above 23 e.inv_flag x7 (ground arith),
        bit_or-above 24 e.cnt_mask x8 (ground arith),
      )
      (omega arith)

-- What `evtsel_write` writes, from what it reads.
abbrev word : (old : ℕ) → Evtsel → ℕ
word old e = bit_or (bit_and old evtsel_reserved_bits) (evtsel_low e)

word_sum :
    (old : ℕ) (e : Evtsel)
    → Fits e
    → word old e ≡ (high_fields e * 2 + field old 21 1) * 2 ^ 21 + low_fields e
word_sum old e f =
    let r = old / 2 ^ 21 % 2 in
    let parts : old ≡ old / 2 ^ 21 * 2 ^ 21 + old % 2 ^ 21 = omega arith in
    let kept : bit_and old (2 ^ 21) ≡ r * 2 ^ 21 + 0 =
      ap (λ x. bit_and x (2 ^ 21)) parts
      ∙ bit_and-bit 21 (old / 2 ^ 21) (old % 2 ^ 21) (omega arith)
      ∙ omega arith in
    let low_fits : low_fields e < 2 ^ 21 = omega (
      arith, f.ev_select_fits, f.ev_mask_fits, f.usr_flag_fits, f.os_flag_fits, f.edge_fits,
      f.pc_flag_fits, f.int_flag_fits,
    ) in
    let sum : evtsel_low e ≡ high_fields e * 2 ^ 1 * 2 ^ 21 + low_fields e =
      evtsel_low_sum e f ∙ omega arith in
    rw
      (
        kept,
        sum,
        bit_or-split 21 r 0 (high_fields e * 2 ^ 1) (low_fields e) (omega arith) low_fits,
        bit_or-above 1 (high_fields e) r (omega arith),
        zero-bit_or (low_fields e),
      )
      refl

-- The register holds each field at its place.
pub record Holds (v old : ℕ) (e : Evtsel) : Type 0 where
  pub ev_select_at : field v 0 8 ≡ e.ev_select
  pub ev_mask_at : field v 8 8 ≡ e.ev_mask
  pub usr_flag_at : field v 16 1 ≡ e.usr_flag
  pub os_flag_at : field v 17 1 ≡ e.os_flag
  pub edge_at : field v 18 1 ≡ e.edge
  pub pc_flag_at : field v 19 1 ≡ e.pc_flag
  pub int_flag_at : field v 20 1 ≡ e.int_flag
  pub reserved_at : field v 21 1 ≡ field old 21 1
  pub enabled_at : field v 22 1 ≡ e.enabled
  pub inv_flag_at : field v 23 1 ≡ e.inv_flag
  pub cnt_mask_at : field v 24 8 ≡ e.cnt_mask

word-Holds : (old : ℕ) (e : Evtsel) → Fits e → Holds (word old e) old e
word-Holds old e f = rw (word_sum old e f) (record {
  ev_select_at = decode0;
  ev_mask_at = ground arith;
  usr_flag_at = ground arith;
  os_flag_at = ground arith;
  edge_at = ground arith;
  pc_flag_at = ground arith;
  int_flag_at = ground arith;
  reserved_at = ground arith;
  enabled_at = ground arith;
  inv_flag_at = ground arith;
  cnt_mask_at = ground arith;
})
  where
    decode0 : field ((high_fields e * 2 + field old 21 1) * 2 ^ 21 + low_fields e) 0 8 ≡ e.ev_select
    decode0 = omega (arith, f.ev_select_fits)

pub read_same :
    (H : Msrs) (cpu a : ℕ) (v : Reg) (s : H.Regs) → H.rdmsr cpu a (H.wrmsr cpu a v s) ≡ v
read_same H cpu a v s = H.rdmsr-wrmsr cpu a cpu a v s ∙ rw (==-refl cpu, ==-refl a) refl

read_word :
    (H : Msrs) (nr_cpus cpu k : ℕ) (p : Pmu H.Regs)
    → cpu < nr_cpus
    → evtsel_read H nr_cpus cpu k (evtsel_write H nr_cpus cpu k p)
      ≡ word (evtsel_read H nr_cpus cpu k p) (p.evtsel cpu k)
unfolding evtsel_read evtsel_write
read_word H nr_cpus cpu k p l =
    let a = (p.evtsel cpu k).addr in
    let v = H.rdmsr cpu a p.regs in
    let new : Reg = record {
      low = word v.low (p.evtsel cpu k);
      high = bit_and v.high evtsel_reserved_bits_high;
    } in
    let written : evtsel_write H nr_cpus cpu k p ≡ record p { regs = H.wrmsr cpu a new p.regs } =
      rw (lt→ltb cpu nr_cpus l) refl in
    ap (evtsel_read H nr_cpus cpu k) written ∙ ap (λ r. r.low) (read_same H cpu a new p.regs)

-- A description whose fields fit is read back as it has been written: each field stands at its place in
-- the event select register, and the reserved bit is as it was.
pub evtsel_write-evtsel_read :
    (H : Msrs) (nr_cpus cpu k : ℕ) (p : Pmu H.Regs)
    → cpu < nr_cpus
    → Fits (p.evtsel cpu k)
    → Holds
        (evtsel_read H nr_cpus cpu k (evtsel_write H nr_cpus cpu k p))
        (evtsel_read H nr_cpus cpu k p)
        (p.evtsel cpu k)
evtsel_write-evtsel_read H nr_cpus cpu k p l f =
    rw (read_word H nr_cpus cpu k p l)
      (word-Holds (evtsel_read H nr_cpus cpu k p) (p.evtsel cpu k) f)

-- The fixed counters' flags fit in their bits.
pub record FlagsFit (c : Fixctrl) : Type 0 where
  pub pmi0_fits : c.pmi0 < 2
  pub os0_fits : c.os0 < 2
  pub usr0_fits : c.usr0 < 2
  pub pmi1_fits : c.pmi1 < 2
  pub os1_fits : c.os1 < 2
  pub usr1_fits : c.usr1 < 2
  pub pmi2_fits : c.pmi2 < 2
  pub os2_fits : c.os2 < 2
  pub usr2_fits : c.usr2 < 2

abbrev control_sum : Fixctrl → ℕ
control_sum c =
    c.pmi2 * 2 ^ 11
    + (c.usr2 * 2 ^ 9
        + (c.os2 * 2 ^ 8
            + (c.pmi1 * 2 ^ 7
                + (c.usr1 * 2 ^ 5
                    + (c.os1 * 2 ^ 4 + (c.pmi0 * 2 ^ 3 + (c.usr0 * 2 ^ 1 + c.os0)))))))

control_low_lem : (c : Fixctrl) → FlagsFit c → control_low c ≡ control_sum c
unfolding control_low
control_low_lem c f =
    let s0 : c.os0 * 2 ^ 0 ≡ c.os0 = omega arith in
    let x1 = c.usr0 * 2 ^ 1 + c.os0 in
    let x2 = c.pmi0 * 2 ^ 3 + x1 in
    let x3 = c.os1 * 2 ^ 4 + x2 in
    let x4 = c.usr1 * 2 ^ 5 + x3 in
    let x5 = c.pmi1 * 2 ^ 7 + x4 in
    let x6 = c.os2 * 2 ^ 8 + x5 in
    let x7 = c.usr2 * 2 ^ 9 + x6 in
    rw
      (
        s0,
        bit_or-above 1 c.usr0 c.os0 (ground arith),
        bit_or-above 3 c.pmi0 x1 (ground arith),
        bit_or-above 4 c.os1 x2 (ground arith),
        bit_or-above 5 c.usr1 x3 (ground arith),
        bit_or-above 7 c.pmi1 x4 (ground arith),
        bit_or-above 8 c.os2 x5 (ground arith),
        bit_or-above 9 c.usr2 x6 (ground arith),
        bit_or-above 11 c.pmi2 x7 (ground arith),
      )
      refl

-- The control register holds each flag at its place, and nothing else.
pub record HoldsFlags (v : ℕ) (c : Fixctrl) : Type 0 where
  pub os0_at : field v 0 1 ≡ c.os0
  pub usr0_at : field v 1 1 ≡ c.usr0
  pub bit_2 : field v 2 1 ≡ 0
  pub pmi0_at : field v 3 1 ≡ c.pmi0
  pub os1_at : field v 4 1 ≡ c.os1
  pub usr1_at : field v 5 1 ≡ c.usr1
  pub bit_6 : field v 6 1 ≡ 0
  pub pmi1_at : field v 7 1 ≡ c.pmi1
  pub os2_at : field v 8 1 ≡ c.os2
  pub usr2_at : field v 9 1 ≡ c.usr2
  pub bit_10 : field v 10 1 ≡ 0
  pub pmi2_at : field v 11 1 ≡ c.pmi2
  pub above : field v 12 20 ≡ 0

control_sum-HoldsFlags : (c : Fixctrl) → FlagsFit c → HoldsFlags (control_sum c) c
control_sum-HoldsFlags c f = record {
  os0_at = ground arith;
  usr0_at = ground arith;
  bit_2 = ground arith;
  pmi0_at = ground arith;
  os1_at = ground arith;
  usr1_at = ground arith;
  bit_6 = ground arith;
  pmi1_at = ground arith;
  os2_at = ground arith;
  usr2_at = ground arith;
  bit_10 = ground arith;
  pmi2_at = ground arith;
  above = ground arith;
}

-- Flags that fit are read back as they have been written, each at its place. Every other bit of the low half of the control
-- register is 0 afterwards, whatever it was before.
pub control_write-control_read :
    (H : Msrs) (nr_cpus cpu : ℕ) (p : Pmu H.Regs)
    → cpu < nr_cpus
    → FlagsFit (p.fcontrol cpu)
    → HoldsFlags (control_read H nr_cpus cpu (control_write H nr_cpus cpu p)) (p.fcontrol cpu)
unfolding control_read control_write
control_write-control_read H nr_cpus cpu p l f =
    let a = msr_perf_fixed_ctr_ctrl in
    let new : Reg = record (H.rdmsr cpu a p.regs) { low = control_low (p.fcontrol cpu) } in
    let written : control_write H nr_cpus cpu p ≡ record p { regs = H.wrmsr cpu a new p.regs } =
      rw (lt→ltb cpu nr_cpus l) refl in
    let low : control_read H nr_cpus cpu (control_write H nr_cpus cpu p)
        ≡ control_sum (p.fcontrol cpu) =
      ap (control_read H nr_cpus cpu) written
      ∙ ap (λ r. r.low) (read_same H cpu a new p.regs)
      ∙ control_low_lem (p.fcontrol cpu) f in
    rw low (control_sum-HoldsFlags (p.fcontrol cpu) f)
