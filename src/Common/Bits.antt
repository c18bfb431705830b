-- ===== src/Common/Bits.antt =====
-- Bitwise or, and a single bit by `and`, of numbers whose digits do not overlap.
use Prim.Native.Nat.{
  ℕ, zero, suc, min, max, ◌+◌, ◌*◌, ◌/◌, ◌%◌, ◌^◌, ◌≤◌, ◌<◌, bit_and, bit_or, digits,
  bit_and-bitwise, bit_or-bitwise,
}
use mathlib.Core.Path.{◌≡◌, refl, ap, ◌∙◌}
use native.Mathlib.Omega.{arith}
use native.Mathlib.Numerals.{unary_clauses}

-- More rounds than digits change nothing.
digits_rounds :
    (z : ℕ → ℕ) (f : ℕ → ℕ → ℕ) (n m a b : ℕ) → a ≤ n → a ≤ m → digits z f n a b ≡ digits z f m a b
digits_rounds z f zero zero a b p q = refl
digits_rounds z f zero (suc m) zero b p q = refl
digits_rounds z f zero (suc m) (suc a) b p q = absurd (omega arith)
digits_rounds z f (suc n) zero zero b p q = refl
digits_rounds z f (suc n) zero (suc a) b p q = absurd (omega arith)
digits_rounds z f (suc n) (suc m) zero b p q = refl
digits_rounds z f (suc n) (suc m) (suc a) b p q =
    ap (λ x. x * 2 + f (suc a % 2) (b % 2))
      (digits_rounds z f n m (suc a / 2) (b / 2) (omega arith) (omega arith))

pub zero-bit_or : (b : ℕ) → bit_or 0 b ≡ b
zero-bit_or b = bit_or-bitwise 0 b

zero-bit_and : (b : ℕ) → bit_and 0 b ≡ 0
zero-bit_and b = bit_and-bitwise 0 b

-- The lowest digit, and the others.
bit_or-halves : (a b : ℕ) → bit_or a b ≡ bit_or (a / 2) (b / 2) * 2 + max (a % 2) (b % 2)
bit_or-halves zero b = omega (arith, zero-bit_or b, zero-bit_or (b / 2))
bit_or-halves (suc a) b = omega (
  arith,
  bit_or-bitwise (suc a) b,
  bit_or-bitwise (suc a / 2) (b / 2),
  digits_rounds (λ b. b) max a (suc a / 2) (suc a / 2) (b / 2) (omega arith) (omega arith),
)

bit_and-halves : (a b : ℕ) → bit_and a b ≡ bit_and (a / 2) (b / 2) * 2 + min (a % 2) (b % 2)
bit_and-halves zero b = omega (arith, zero-bit_and b, zero-bit_and (b / 2))
bit_and-halves (suc a) b = omega (
  arith,
  bit_and-bitwise (suc a) b,
  bit_and-bitwise (suc a / 2) (b / 2),
  digits_rounds (λ b. 0) min a (suc a / 2) (suc a / 2) (b / 2) (omega arith) (omega arith),
)

pow_suc : (k : ℕ) → 2 ^ suc k ≡ 2 * 2 ^ k
pow_suc k = simp unary_clauses (omega arith)

double : (a k : ℕ) → a * 2 ^ suc k ≡ 2 * (a * 2 ^ k)
double a k = rw (pow_suc k) (grind arith)

half_sum : (x y b : ℕ) → x ≡ 2 * y → ((x + b) / 2 ≡ y + b / 2) × ((x + b) % 2 ≡ b % 2)
half_sum x y b e = (omega arith, omega arith)

zero_of : (b : ℕ) → b < 2 ^ 0 → b ≡ 0
zero_of b h = omega arith

-- An operation on digits treats those from the `k`-th one on, and those below it, apart.
split :
    (op f : ℕ → ℕ → ℕ)
    → ((a b : ℕ) → op a b ≡ op (a / 2) (b / 2) * 2 + f (a % 2) (b % 2))
    → op 0 0 ≡ 0
    → (k a b c d : ℕ) → b < 2 ^ k
    → d < 2 ^ k
    → op (a * 2 ^ k + b) (c * 2 ^ k + d) ≡ op a c * 2 ^ k + op b d
split op f halves none zero a b c d p q =
    let one : (x : ℕ) → x * 2 ^ 0 + 0 ≡ x = λ x. omega arith in
    rw (zero_of b p, zero_of d q, one a, one c) (omega (arith, none))
split op f halves none (suc k) a b c d p q =
    let (ha, ma) = half_sum (a * 2 ^ suc k) (a * 2 ^ k) b (double a k) in
    let (hc, mc) = half_sum (c * 2 ^ suc k) (c * 2 ^ k) d (double c k) in
    halves (a * 2 ^ suc k + b) (c * 2 ^ suc k + d)
    ∙ rw (ha, hc, ma, mc)
        (omega (
          arith,
          halves b d,
          split op f halves none k a (b / 2) c (d / 2) (omega (arith, pow_suc k))
              (omega (arith, pow_suc k)),
          double (op a c) k,
        ))

pub bit_or-split :
    (k a b c d : ℕ)
    → b < 2 ^ k
    → d < 2 ^ k
    → bit_or (a * 2 ^ k + b) (c * 2 ^ k + d) ≡ bit_or a c * 2 ^ k + bit_or b d
bit_or-split = split bit_or max bit_or-halves (zero-bit_or 0)

bit_and-split :
    (k a b c d : ℕ)
    → b < 2 ^ k
    → d < 2 ^ k
    → bit_and (a * 2 ^ k + b) (c * 2 ^ k + d) ≡ bit_and a c * 2 ^ k + bit_and b d
bit_and-split = split bit_and min bit_and-halves (zero-bit_and 0)

bit_or-zero_rounds : (n a : ℕ) → a ≤ n → bit_or a 0 ≡ a
bit_or-zero_rounds n zero h = zero-bit_or 0
bit_or-zero_rounds zero (suc a) h = absurd (omega arith)
bit_or-zero_rounds (suc n) (suc a) h =
    omega (arith, bit_or-halves (suc a) 0, bit_or-zero_rounds n (suc a / 2) (omega arith))

pub bit_or-zero : (a : ℕ) → bit_or a 0 ≡ a
bit_or-zero a = bit_or-zero_rounds a a (omega arith)

bit_and-zero_rounds : (n a : ℕ) → a ≤ n → bit_and a 0 ≡ 0
bit_and-zero_rounds n zero h = zero-bit_and 0
bit_and-zero_rounds zero (suc a) h = absurd (omega arith)
bit_and-zero_rounds (suc n) (suc a) h =
    omega (arith, bit_and-halves (suc a) 0, bit_and-zero_rounds n (suc a / 2) (omega arith))

bit_and-zero : (a : ℕ) → bit_and a 0 ≡ 0
bit_and-zero a = bit_and-zero_rounds a a (omega arith)

-- Digits above the others are added.
pub bit_or-above : (k a b : ℕ) → b < 2 ^ k → bit_or b (a * 2 ^ k) ≡ a * 2 ^ k + b
bit_or-above k a b h =
    let low : b ≡ 0 * 2 ^ k + b = omega arith in
    let high : a * 2 ^ k ≡ a * 2 ^ k + 0 = omega arith in
    ap (λ x. bit_or x (a * 2 ^ k)) low
    ∙ ap (bit_or (0 * 2 ^ k + b)) high
    ∙ bit_or-split k 0 b a 0 h (omega arith)
    ∙ rw (zero-bit_or a, bit_or-zero b) refl

-- One bit of a number.
pub bit_and-bit : (k a b : ℕ) → b < 2 ^ k → bit_and (a * 2 ^ k + b) (2 ^ k) ≡ (a % 2) * 2 ^ k
bit_and-bit k a b h =
    let bit : 2 ^ k ≡ 1 * 2 ^ k + 0 = omega arith in
    let last : bit_and a 1 ≡ a % 2 = omega (arith, bit_and-halves a 1, bit_and-zero (a / 2)) in
    ap (bit_and (a * 2 ^ k + b)) bit
    ∙ bit_and-split k a b 1 0 h (omega arith)
    ∙ rw (last, bit_and-zero b) (omega arith)
