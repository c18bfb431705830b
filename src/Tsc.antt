-- ===== src/Tsc.antt =====
-- Module/seeker-scheduler/tsc_intf.c: the cycles of each cpu since it was asked last. What
-- native_read_tsc gives is a parameter.
mod Tests
use seeker_scheduler.Common.{
  ℕ, ◌+◌, ◌-◌, ◌%◌, ◌^◌, ◌≤◌, ◌<◌, ◌≡◌, ◌≢◌, refl, ap, ◌∙◌, List, [], ◌∷◌, ◌==◌, if◌then◌else◌,
  Bool-cases, inl, inr, ℤ, pos, negsuc, update, update_same, update_other, in_turn, failed, arith,
}

-- The cpu that runs, what its time stamp counter shows, and tsc_val.
unfoldable pub get_tsc_cycles : (cpu now : ℕ) → (ℕ → ℕ) → ℕ × (ℕ → ℕ)
get_tsc_cycles cpu now tsc_val = ((now + 2 ^ 64 - tsc_val cpu) % 2 ^ 64, update tsc_val cpu now)

unfoldable pub init_tsc : (cpu now : ℕ) → (ℕ → ℕ) → ℕ → ℕ
init_tsc cpu now tsc_val = update tsc_val cpu now

-- `order` is the order in which the cpus make the call, `answer` what on_each_cpu returns.
unfoldable pub init_tsc_intf : (order : List ℕ) (now : ℕ → ℕ) (answer : ℤ) → (ℕ → ℕ) → (ℕ → ℕ) × ℤ
unfolding in_turn failed init_tsc
init_tsc_intf order now answer tsc_val =
    (in_turn order (λ c. init_tsc c (now c)) tsc_val, if failed answer then negsuc 0 else pos 0)

-- A call: the cpu that makes it, and the cycles since the machine was started, of which the counter
-- shows the low 64 bits.
abbrev pub Call : Type 0
Call = ℕ × ℕ

-- What the calls of the cpu `c` return together.
unfoldable pub charged : (c : ℕ) → List Call → (ℕ → ℕ) → ℕ
charged c [] s = 0
charged c ((cpu, t) ∷ calls) s =
    let (ret, s') = get_tsc_cycles cpu (t % 2 ^ 64) s in
    (if cpu == c then ret else 0) + charged c calls s'

-- When each cpu has made its last call.
unfoldable pub last_call : List Call → (ℕ → ℕ) → ℕ → ℕ
last_call [] start = start
last_call ((cpu, t) ∷ calls) start = last_call calls (update start cpu t)

-- No counter goes round between two calls of a cpu.
unfoldable pub Paced : List Call → (ℕ → ℕ) → Type 0
Paced [] start = 0 ≤ 0
Paced ((cpu, t) ∷ calls) start =
    (start cpu ≤ t) × (t < start cpu + 2 ^ 64) × Paced calls (update start cpu t)

-- The module's values are the low 64 bits of when each cpu was asked last.
abbrev pub Shows : (ℕ → ℕ) → (ℕ → ℕ) → Type 0
Shows s start = (c : ℕ) → s c ≡ start c % 2 ^ 64

update-Shows :
    (s start : ℕ → ℕ) (cpu t : ℕ)
    → Shows s start
    → Shows (update s cpu (t % 2 ^ 64)) (update start cpu t)
update-Shows s start cpu t h c = elim (Bool-cases (cpu == c)) [
  | inl same ↦ rw same refl
  | inr other ↦ rw other (h c)
]

-- Whatever cpus ask in whichever order, and however often their counters have gone round 64 bits:
-- what a cpu has been told adds up to the cycles between the start and its last call, and so no cycle
-- is counted twice or lost, as long as no counter goes round between two calls of its cpu.
pub charged_lem :
    (c : ℕ) (calls : List Call) (s start : ℕ → ℕ)
    → Shows s start
    → Paced calls start
    → start c + charged c calls s ≡ last_call calls start c
unfolding charged last_call Paced get_tsc_cycles
charged_lem c [] s start h p = omega arith
charged_lem c ((cpu, t) ∷ calls) s start h (low, high, rest) =
    let s' = update s cpu (t % 2 ^ 64) in
    let ih = charged_lem c calls s' (update start cpu t) (update-Shows s start cpu t h) rest in
    let ret : (t % 2 ^ 64 + 2 ^ 64 - s cpu) % 2 ^ 64 ≡ t - start cpu = omega (arith, h cpu) in
    let told : update start cpu t c ≡ start c + (if cpu == c then t - start cpu else 0) =
      elim (Bool-cases (cpu == c)) [
        | inl same ↦ rw same (let e : cpu ≡ c = ground arith in omega (arith, ap start e))
        | inr other ↦ rw other (omega arith)
      ] in
    rw ret (omega (arith, ih, told))
