-- ===== src/Kernel.antt =====
-- What the modules take from the Linux kernel, whose sources are not here: the sets of cpus,
-- `cpumask_t` of linux/cpumask.h, by their documented operations and laws.
use seeker_scheduler.Common.{
  ℕ, zero, suc, not, ◌||◌, ◌&&◌, arith, ◌<◌, Bool, true, false, ◌≡◌, ◌==◌, if◌then◌else◌, refl,
}

pub record Cpumask : Type 1 where
  pub Mask : Type 0
  -- NR_CPUS
  pub nr_cpus : ℕ
  -- cpus_clear, CPU_MASK_NONE
  pub none : Mask
  -- cpu_set
  pub set : ℕ → Mask → Mask
  -- cpu_clear
  pub clear : ℕ → Mask → Mask
  -- cpu_isset
  pub isset : ℕ → Mask → Bool
  -- cpus_empty
  pub is_empty : Mask → Bool
  pub isset-none : (i : ℕ) → isset i none ≡ false
  pub isset-set :
      (i j : ℕ) (m : Mask)
      → i < nr_cpus
      → j < nr_cpus
      → isset j (set i m) ≡ (if i == j then true else isset j m)
  pub isset-clear :
      (i j : ℕ) (m : Mask)
      → i < nr_cpus
      → j < nr_cpus
      → isset j (clear i m) ≡ (if i == j then false else isset j m)
  pub isset-is_empty : (i : ℕ) (m : Mask) → i < nr_cpus → isset i m ≡ true → is_empty m ≡ false

-- Whether one of the first `n` is in the set.
pub any_below : (ℕ → Bool) → ℕ → Bool
any_below m zero = false
any_below m (suc n) = m n || any_below m n

pub any_below-member : (m : ℕ → Bool) (n i : ℕ) → i < n → m i ≡ true → not (any_below m n) ≡ false
unfolding any_below
any_below-member m zero i l h = absurd (omega arith)
any_below-member m (suc n) i l h = ground (arith, any_below-member m n i)

-- Sets of cpus as their membership tests: the assumptions can be met.
abbrev pub test_mask : Cpumask
test_mask = record {
  Mask = ℕ → Bool;
  nr_cpus = 64;
  none = λ i. false;
  set = λ i m j. if i == j then true else m j;
  clear = λ i m j. if i == j then false else m j;
  isset = λ i m. m i;
  is_empty = λ m. not (any_below m 64);
  isset-is_empty = λ i m l h. any_below-member m 64 i l h;
  isset-none = λ i. refl;
  isset-set = λ i j m p q. refl;
  isset-clear = λ i j m p q. refl;
}

-- rdmsr and wrmsr of asm/msr.h, for the registers of each cpu: a register that is read has what was
-- last written to it. What the hardware counts in the meantime is left out.
pub record Reg : Type 0 where
  pub low : ℕ
  pub high : ℕ

pub record Msrs : Type 1 where
  pub Regs : Type 0
  pub rdmsr : (cpu addr : ℕ) → Regs → Reg
  pub wrmsr : (cpu addr : ℕ) → Reg → Regs → Regs
  pub rdmsr-wrmsr :
      (cpu addr c a : ℕ) (v : Reg) (s : Regs)
      → rdmsr c a (wrmsr cpu addr v s) ≡ (if cpu == c && addr == a then v else rdmsr c a s)

-- Registers as a function of cpu and address: the assumption can be met.
abbrev pub test_msrs : Msrs
test_msrs = record {
  Regs = ℕ → ℕ → Reg;
  rdmsr = λ cpu addr s. s cpu addr;
  wrmsr = λ cpu addr v s c a. if cpu == c && addr == a then v else s c a;
  rdmsr-wrmsr = λ cpu addr c a v s. refl;
}
