-- ===== src/Common/Sum.antt =====
-- The sum of the first cells of an array.
use seeker_scheduler.Common.Loops.{update}
use Prim.Native.Nat.{ℕ, zero, suc, ◌+◌, ◌≤◌, ◌<◌}
use mathlib.Core.Path.{◌≡◌}
use native.Mathlib.Omega.{arith}

unfoldable pub sum_in : (ℕ → ℕ) → ℕ → ℕ
sum_in f zero = 0
sum_in f (suc n) = f n + sum_in f n

pub sum_in-ext : (f g : ℕ → ℕ) (n : ℕ) → ((i : ℕ) → i < n → f i ≡ g i) → sum_in f n ≡ sum_in g n
unfolding sum_in
sum_in-ext f g zero h = omega arith
sum_in-ext f g (suc n) h = ground (arith, sum_in-ext f g n (λ i l. h i (omega arith)), h n)

pub sum_in-update_ge : (f : ℕ → ℕ) (n c v : ℕ) → n ≤ c → sum_in (update f c v) n ≡ sum_in f n
unfolding sum_in
sum_in-update_ge f zero c v h = omega arith
sum_in-update_ge f (suc n) c v h = ground (arith, sum_in-update_ge f n c v)

-- A cell that is written leaves the sum with its old value and enters it with its new one.
pub sum_in-update_lt :
    (f : ℕ → ℕ) (n c v : ℕ) → c < n → sum_in (update f c v) n + f c ≡ sum_in f n + v
unfolding sum_in
sum_in-update_lt f zero c v h = absurd (omega arith)
sum_in-update_lt f (suc n) c v h =
    ground (arith, sum_in-update_lt f n c v, sum_in-update_ge f n c v)

pub sum_in_zero : (f : ℕ → ℕ) (n : ℕ) → ((i : ℕ) → i < n → f i ≡ 0) → sum_in f n ≡ 0
unfolding sum_in
sum_in_zero f zero h = omega arith
sum_in_zero f (suc n) h =
    omega (arith, sum_in_zero f n (λ i l. h i (omega arith)), h n (omega arith))
