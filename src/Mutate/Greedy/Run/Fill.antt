-- ===== src/Mutate/Greedy/Run/Fill.antt =====
-- The cpus that are selected after the auction, as many as there is load for.
use seeker_scheduler.Common.{
  ℕ, suc, ◌≤◌, ◌<◌, ◌≡◌, refl, ◌⊎◌, inl, inr, Bool-cases, not, ◌||◌, leb, ◌==◌, for_up, for_up_inv,
  count_in, count_in-update_lt, count_in_sub, arith,
}
use seeker_scheduler.Mutate.{ProcInfo}
use seeker_scheduler.Mutate.Greedy.{Auction}
use seeker_scheduler.Mutate.Greedy.Run.{fill_round, fill_selected}

module _ (n load : ℕ) (info : ℕ → ProcInfo) where
  -- After `m` cpus.
  record Filling (a : Auction) (m : ℕ) (b : Auction) : Type 0 where
    same : b.new_cpu_state ≡ a.new_cpu_state
    bit : (i : ℕ) → i < n → b.selected_cpus i ≤ 1
    count : count_in b.selected_cpus n 0 ≡ b.total_selected_cpus
    fits : b.total_selected_cpus ≤ load
    taken :
        (b.total_selected_cpus ≡ load)
        ⊎ ((i : ℕ) → i < m → (info i).sleep_time ≡ 0 → b.selected_cpus i ≡ 0)
    kept : (i : ℕ) → i < n → a.selected_cpus i ≡ 0 → b.selected_cpus i ≡ 0

  fill_round-Filling :
      (a : Auction) (m : ℕ) (b : Auction)
      → m < n
      → Filling a m b
      → Filling a (suc m) (fill_round load info m b)
  unfolding fill_round
  fill_round-Filling a m b l v =
      elim (Bool-cases (
        leb load b.total_selected_cpus
        || b.selected_cpus m == 0
        || not ((info m).sleep_time == 0))) [
          | inl skip ↦ rw skip (record {
            same = v.same;
            bit = v.bit;
            count = v.count;
            fits = v.fits;
            taken = elim v.taken [
              | inl full ↦ inl full
              | inr all ↦ elim (Bool-cases (leb load b.total_selected_cpus)) [
                | inl full ↦ inl (ground (arith, v.fits))
                | inr room ↦ inr (λ i h z. ground (arith, all i))
              ]
            ];
            kept = v.kept;
          })
          | inr take ↦ rw take (record {
            same = v.same;
            bit = λ i h. ground (arith, v.bit i h);
            count = ground (arith, count_in-update_lt b.selected_cpus n 0 m 0 l, v.count);
            fits = ground (arith, v.fits);
            taken = elim v.taken [
              | inl full ↦ ground arith
              | inr all ↦ inr (λ i h z. ground (arith, all i))
            ];
            kept = λ i h z. ground (arith, v.kept i h);
          })
        ]

  -- If the auction selected no more cpus than the load, and the cpus that do not sleep suffice for the
  -- load: exactly as many cpus as the load get selected,
  -- those of the auction among them.
  pub fill_selected_lem :
      (a : Auction)
      → ((i : ℕ) → i < n → a.selected_cpus i ≤ 1)
      → count_in a.selected_cpus n 0 ≡ a.total_selected_cpus
      → a.total_selected_cpus ≤ load
      → load ≤ count_in (λ i. (info i).sleep_time) n 0
      → let b = fill_selected n load info a in
        (count_in b.selected_cpus n 0 ≡ load)
        × (b.new_cpu_state ≡ a.new_cpu_state)
        × ((i : ℕ) → i < n → a.selected_cpus i ≡ 0 → b.selected_cpus i ≡ 0)
  unfolding fill_selected
  fill_selected_lem a bit count fits enough =
      let b = for_up n (fill_round load info) a in
      let v =
        for_up_inv (Filling a) n (fill_round load info) a
          (record {
            same = refl;
            bit = bit;
            count = count;
            fits = fits;
            taken = inr (λ i l. absurd (omega arith));
            kept = λ i l z. z;
          })
          (λ m b l h. fill_round-Filling a m b l h) in
      (
        elim v.taken [
          | inl full ↦ omega (arith, v.count, full)
          | inr all ↦ omega (
            arith,
            v.count,
            v.fits,
            count_in_sub (λ i. (info i).sleep_time) b.selected_cpus n 0 all,
          )
        ],
        v.same,
        v.kept,
      )
