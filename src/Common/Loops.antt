-- ===== src/Common/Loops.antt =====
-- C arrays as functions of the index, and C's counted loops.
use Prim.Native.Nat.{ℕ, zero, suc, ◌<◌}
use native.Mathlib.Omega.{arith}
use seeker_scheduler.Common.Tests.{◌==◌, if◌then◌else◌, ==-refl, ne→==}
use mathlib.Core.Path.{◌≡◌, refl}
use mathlib.Core.Logic.{◌≢◌}
use mathlib.Core.List.{List, [], ◌∷◌}

-- `a[i] = v`. What C does out of an array's range is undefined; indices are shown in range where a
-- theorem depends on it.
abbrev pub update {ℓ} : {A : Type ℓ} → (ℕ → A) → ℕ → A → ℕ → A
update a i v j = if i == j then v else a j

-- `for (i = 0; i < n; i++) body`
unfoldable pub for_up {ℓ} : {S : Type ℓ} → ℕ → (ℕ → S → S) → S → S
for_up zero body s = s
for_up (suc n) body s = body n (for_up n body s)

-- The invariant rule of `for_up`.
pub for_up_inv {ℓ κ} :
    {S : Type ℓ} (P : ℕ → S → Type κ) (n : ℕ) (body : ℕ → S → S) (s : S)
    → P 0 s
    → ((i : ℕ) (t : S) → i < n → P i t → P (suc i) (body i t))
    → P n (for_up n body s)
unfolding for_up
for_up_inv P zero body s h keep = h
for_up_inv P (suc n) body s h keep =
    keep n (for_up n body s) (omega arith)
      (for_up_inv P n body s h (λ i t l. keep i t (omega arith)))

pub update_same {ℓ} : {A : Type ℓ} (f : ℕ → A) (i : ℕ) (v : A) → update f i v i ≡ v
update_same f i v = rw (==-refl i) refl

pub update_other {ℓ} : {A : Type ℓ} (f : ℕ → A) (i j : ℕ) (v : A) → i ≢ j → update f i v j ≡ f j
update_other f i j v h = rw (ne→== i j h) refl

-- A function that each cpu calls once, as on_each_cpu makes them do, in the order in which they get to.
unfoldable pub in_turn {ℓ} : {S : Type ℓ} → List ℕ → (ℕ → S → S) → S → S
in_turn [] f s = s
in_turn (c ∷ cs) f s = in_turn cs f (f c s)
