-- ===== src/Cpufreq/Tables/Sort.antt =====
-- The order of what `sort_table`, a bubble sort, leaves, and its contents.
use seeker_scheduler.Common.{
  ℕ, suc, ◌+◌, ◌-◌, ◌≤◌, ◌<◌, ◌≡◌, refl, ◌∙◌, leb, update, for_up_inv, count_in, count_in-update_lt,
  arith, ◌⊎◌, inl, inr, Bool-cases,
}
use seeker_scheduler.Cpufreq.Tables.{sort_step, sort_pass, sort_table}

-- Of the first `n` cells the last `k` are in order and above all before them.
abbrev Tops : (n k : ℕ) → (ℕ → ℕ) → Type 0
Tops n k t = (i j : ℕ) → i ≤ j → n ≤ k + j → j < n → t i ≤ t j

-- After `m` steps of a pass over a table with `k` cells in place: the largest of the cells passed, up
-- to those in place, is the last of them.
record Passing (n k m : ℕ) (t : ℕ → ℕ) : Type 0 where
  tops : Tops n k t
  largest : (i c : ℕ) → c ≤ m → suc (c + k) ≤ n → (c ≡ m) ⊎ (suc (c + k) ≡ n) → i ≤ c → t i ≤ t c

sort_step-Passing :
    (n k m : ℕ) (t : ℕ → ℕ) → suc m < n → Passing n k m t → Passing n k (suc m) (sort_step m t)
unfolding sort_step
sort_step-Passing n k m t h p = elim (Bool-cases (leb (t m) (t (suc m)))) [
  | inl ordered ↦ rw ordered (record {
    tops = p.tops;
    largest = λ i c l r e s. ground (arith, p.largest i m, p.largest i c);
  })
  | inr swapped ↦ rw swapped (record {
    tops = λ i j l r s. ground (arith, p.tops m (suc m), p.tops i j, p.tops m j, p.tops (suc m) j);
    largest = λ i c l r e s. ground (arith, p.tops m (suc m), p.largest i m, p.largest i c);
  })
]

-- A pass puts one more cell in place.
sort_pass-Tops : (n k : ℕ) (t : ℕ → ℕ) → Tops n k t → Tops n (suc k) (sort_pass n t)
unfolding sort_pass
sort_pass-Tops n k t h i j l r s =
    let p =
      for_up_inv (Passing n k) (n - 1) sort_step t
        (record { tops = h; largest = λ i c l r e s. ground arith })
        (λ m u l q. sort_step-Passing n k m u (omega arith) q) in
    elim (Bool-cases (leb n (k + j))) [
      | inl placed ↦ p.tops i j l (ground arith) s
      | inr next ↦ p.largest i j (omega arith) (ground arith) (inr (ground arith)) l
    ]

sort_table-Tops : (n : ℕ) (t : ℕ → ℕ) → Tops n n (sort_table n t)
unfolding sort_table
sort_table-Tops n t i j l r s =
    let h =
      for_up_inv (Tops n) (n - 1) (λ k u. sort_pass n u) t (λ i j l r s. absurd (omega arith))
        (λ k u l q. sort_pass-Tops n k u q) in
    elim (Bool-cases (leb 1 j)) [ inl later ↦ h i j l (ground arith) s | inr first ↦ ground arith ]

-- `sort_table` leaves the table in ascending order.
sort_table-sorted :
    (len : ℕ) (table : ℕ → ℕ) (i j : ℕ)
    → i ≤ j
    → j < len
    → sort_table len table i ≤ sort_table len table j
sort_table-sorted len table i j h l = sort_table-Tops len table i j h (omega arith) l

sort_step-count :
    (n v m : ℕ) (t : ℕ → ℕ) → suc m < n → count_in (sort_step m t) n v ≡ count_in t n v
unfolding sort_step
sort_step-count n v m t h = ground (
  arith,
  count_in-update_lt t n v m (t (suc m)),
  count_in-update_lt (update t m (t (suc m))) n v (suc m) (t m),
)

sort_pass-count : (n v : ℕ) (t : ℕ → ℕ) → count_in (sort_pass n t) n v ≡ count_in t n v
unfolding sort_pass
sort_pass-count n v t =
    for_up_inv (λ m u. count_in u n v ≡ count_in t n v) (n - 1) sort_step t refl
      (λ m u l e. sort_step-count n v m u (omega arith) ∙ e)

-- Every frequency stands in the sorted table as often as before.
sort_table-count :
    (len : ℕ) (table : ℕ → ℕ) (v : ℕ) → count_in (sort_table len table) len v ≡ count_in table len v
unfolding sort_table
sort_table-count len table v =
    for_up_inv (λ m u. count_in u len v ≡ count_in table len v) (len - 1) (λ i u. sort_pass len u)
      table refl (λ m u l e. sort_pass-count len v u ∙ e)

-- `sort_table` leaves the table in ascending order, and every frequency stands in it as often as before.
pub sort_table_lem :
    (len : ℕ) (table : ℕ → ℕ)
    → ((i j : ℕ) → i ≤ j → j < len → sort_table len table i ≤ sort_table len table j)
      × ((v : ℕ) → count_in (sort_table len table) len v ≡ count_in table len v)
sort_table_lem len table = (sort_table-sorted len table, sort_table-count len table)
