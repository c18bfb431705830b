-- ===== src/Search/Scan.antt =====
-- The two loops that look for the first index with a property.
use seeker_scheduler.Common.{
  ℕ, zero, suc, ◌+◌, ◌≤◌, ◌<◌, ◌≡◌, refl, ◌⊎◌, inl, inr, Bool, true, false, Option, none, some,
  Bool-cases, if◌then◌else◌, arith,
}

-- `for (i = n - 1; i >= 0; i--) if (p(i)) return i;`
unfoldable pub first_down : (ℕ → Bool) → ℕ → Option ℕ
first_down p zero = none
first_down p (suc n) = if p n then some n else first_down p n

-- `for (i = from; i < from + n; i++) if (p(i)) return i;`
unfoldable pub first_up : (ℕ → Bool) → ℕ → ℕ → Option ℕ
first_up p from zero = none
first_up p from (suc n) = if p from then some from else first_up p (suc from) n

-- What a search of the indices `lo ≤ j < hi` has found: nothing, or an index with the property, with
-- none between it and the side that the search began from.
abbrev pub Misses : (ℕ → Bool) → ℕ → ℕ → Type 0
Misses p lo hi = (j : ℕ) → lo ≤ j → j < hi → p j ≡ false

pub first_down_cases :
    (p : ℕ → Bool) (n : ℕ)
    → ((first_down p n ≡ none) × Misses p 0 n)
      ⊎ ((i : ℕ) × (first_down p n ≡ some i) × (i < n) × (p i ≡ true) × Misses p (suc i) n)
unfolding first_down
first_down_cases p zero = inl (refl, λ j h l. absurd (omega arith))
first_down_cases p (suc n) = elim (Bool-cases (p n)) [
  | inl hit ↦ inr (n, rw hit, omega arith, hit, λ j h l. absurd (omega arith))
  | inr miss ↦ elim (first_down_cases p n) [
    | inl (e, m) ↦ inl (rw miss e, λ j h l. ground (arith, m j h))
    | inr (i, e, l, t, m) ↦ inr (i, rw miss e, omega arith, t, λ j h l. ground (arith, m j h))
  ]
]

pub first_up_cases :
    (p : ℕ → Bool) (from n : ℕ)
    → ((first_up p from n ≡ none) × Misses p from (from + n))
      ⊎ ((i : ℕ) × (first_up p from n ≡ some i)
          × (from ≤ i)
          × (i < from + n)
          × (p i ≡ true)
          × Misses p from i)
unfolding first_up
first_up_cases p from zero = inl (refl, λ j h l. absurd (omega arith))
first_up_cases p from (suc n) = elim (Bool-cases (p from)) [
  | inl hit ↦ inr (from, rw hit, omega arith, omega arith, hit, λ j h l. absurd (omega arith))
  | inr miss ↦ elim (first_up_cases p (suc from) n) [
    | inl (e, m) ↦ inl (rw miss e, λ j h l. ground (arith, m j))
    | inr (i, e, g, l, t, m) ↦
        inr (i, rw miss e, omega arith, omega arith, t, λ j h l. ground (arith, m j))
  ]
]
