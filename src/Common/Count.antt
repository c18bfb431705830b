-- ===== src/Common/Count.antt =====
-- How many of the first `n` cells of an array hold a value.
use seeker_scheduler.Common.Tests.{◌==◌, if◌then◌else◌, ltb, leb, Bool-cases, ==_iff}
use seeker_scheduler.Common.Loops.{update}
use Prim.Native.Nat.{ℕ, zero, suc, ◌+◌, ◌≤◌, ◌<◌}
use mathlib.Core.Path.{◌≡◌}
use mathlib.Core.Logic.{◌≢◌, inl, inr}
use native.Mathlib.Omega.{arith}

abbrev pub one_if_eq : ℕ → ℕ → ℕ
one_if_eq a b = if a == b then 1 else 0

unfoldable pub count_in : (ℕ → ℕ) → ℕ → ℕ → ℕ
count_in f zero k = 0
count_in f (suc n) k = one_if_eq (f n) k + count_in f n k

pub count_in-le : (f : ℕ → ℕ) (n k : ℕ) → count_in f n k ≤ n
unfolding count_in
count_in-le f zero k = omega arith
count_in-le f (suc n) k = ground (arith, count_in-le f n k)

-- A write at an index that is not counted changes nothing.
pub count_in-update_ge :
    (f : ℕ → ℕ) (n k c v : ℕ) → n ≤ c → count_in (update f c v) n k ≡ count_in f n k
unfolding count_in
count_in-update_ge f zero k c v h = omega arith
count_in-update_ge f (suc n) k c v h = ground (arith, count_in-update_ge f n k c v)

-- One more cpu with a state of its own.
pub count_in-update_next :
    (f : ℕ → ℕ) (n k v : ℕ) → count_in (update f n v) (suc n) k ≡ one_if_eq v k + count_in f n k
unfolding count_in
count_in-update_next f n k v = ground (arith, count_in-update_ge f n k n v)

-- A cpu that is counted leaves its old state and enters the new one.
pub count_in-update_lt :
    (f : ℕ → ℕ) (n k c v : ℕ)
    → c < n
    → count_in (update f c v) n k + one_if_eq (f c) k ≡ count_in f n k + one_if_eq v k
unfolding count_in
count_in-update_lt f zero k c v h = absurd (omega arith)
count_in-update_lt f (suc n) k c v h =
    ground (arith, count_in-update_lt f n k c v, count_in-update_ge f n k c v)

pub count_in-pos : (f : ℕ → ℕ) (n c : ℕ) → c < n → 0 < count_in f n (f c)
unfolding count_in
count_in-pos f zero c h = absurd (omega arith)
count_in-pos f (suc n) c h = ground (arith, count_in-pos f n c)

pub count_in-ext :
    (f g : ℕ → ℕ) (n k : ℕ) → ((i : ℕ) → i < n → f i ≡ g i) → count_in f n k ≡ count_in g n k
unfolding count_in
count_in-ext f g zero k h = omega arith
count_in-ext f g (suc n) k h = ground (arith, count_in-ext f g n k (λ i l. h i (omega arith)), h n)

pub count_in_mono : (f : ℕ → ℕ) (m n k : ℕ) → m ≤ n → count_in f m k ≤ count_in f n k
unfolding count_in
count_in_mono f zero n k h = omega arith
count_in_mono f (suc m) zero k h = absurd (omega arith)
count_in_mono f (suc m) (suc n) k h = elim (Bool-cases (leb (suc m) n)) [
  | inl below ↦ ground (arith, count_in_mono f (suc m) n k)
  | inr same ↦ let e : m ≡ n = ground arith in rw e (omega arith)
]

pub count_in_full : (f : ℕ → ℕ) (n k : ℕ) → ((i : ℕ) → i < n → f i ≡ k) → count_in f n k ≡ n
unfolding count_in
count_in_full f zero k h = omega arith
count_in_full f (suc n) k h = ground (arith, count_in_full f n k (λ i l. h i (omega arith)), h n)

pub count_in_missing : (f : ℕ → ℕ) (n k i : ℕ) → i < n → f i ≢ k → count_in f n k < n
unfolding count_in
count_in_missing f zero k i l h = absurd (omega arith)
count_in_missing f (suc n) k i l h = ground (arith, count_in_missing f n k i, count_in-le f n k)

pub count_in_none : (f : ℕ → ℕ) (n k : ℕ) → ((i : ℕ) → i < n → f i ≢ k) → count_in f n k ≡ 0
unfolding count_in
count_in_none f zero k h = omega arith
count_in_none f (suc n) k h = ground (arith, count_in_none f n k (λ i l. h i (omega arith)), h n)

-- If one array holds the value wherever another does, it holds it as often.
pub count_in_sub :
    (f g : ℕ → ℕ) (n k : ℕ)
    → ((i : ℕ) → i < n → f i ≡ k → g i ≡ k)
    → count_in f n k ≤ count_in g n k
unfolding count_in
count_in_sub f g zero k h = omega arith
count_in_sub f g (suc n) k h = ground (arith, count_in_sub f g n k (λ i l. h i (omega arith)), h n)

-- A value that is counted stands somewhere.
pub count_in_found : (f : ℕ → ℕ) (n k : ℕ) → 0 < count_in f n k → (i : ℕ) × (i < n) × (f i ≡ k)
unfolding count_in
count_in_found f zero k h = absurd (omega arith)
count_in_found f (suc n) k h = elim (Bool-cases (f n == k)) [
  | inl here ↦ (n, omega arith, (==_iff (f n) k).0 here)
  | inr past ↦ let (i, l, e) = count_in_found f n k (ground arith) in (i, omega arith, e)
]

-- The cells that hold the value have ranks, all those below their number.
pub count_in_rank :
    (f : ℕ → ℕ) (n k i : ℕ)
    → i < count_in f n k
    → (c : ℕ) × (c < n) × (f c ≡ k) × (count_in f c k ≡ i)
unfolding count_in
count_in_rank f zero k i h = absurd (omega arith)
count_in_rank f (suc n) k i h = elim (Bool-cases (ltb i (count_in f n k))) [
  | inl below ↦ let (c, l, e, r) = count_in_rank f n k i (ground arith) in (c, omega arith, e, r)
  | inr here ↦ (n, omega arith, ground arith, ground arith)
]
