-- ===== src/Mutate/Dynamic/Optimal.antt =====
-- What `mck` chooses, against every other choice of states.
use seeker_scheduler.Common.{
  ℕ, zero, suc, ◌-◌, ◌≤◌, ◌<◌, ◌≡◌, ◌≢◌, refl, ◌∙◌, inl, inr, Bool-cases, some, ◌==◌, ℤ, pos, leb_ℤ,
  update, sum_in, arith,
}
use seeker_scheduler.Search.Scan.{first_down}
use seeker_scheduler.Mutate.Dynamic.{dyna, backtrack, mck, weight}
use seeker_scheduler.Mutate.Dynamic.Table.{Most, Sound, table_value, dyna-RowRight}

-- What the states `s` of the first `k` cpus cost, and what they gain.
abbrev pub cost : (wt : ℕ → ℕ → ℕ) (s : ℕ → ℕ) → ℕ → ℕ
cost wt s k = sum_in (λ i. wt i (s i)) k

abbrev pub gain : (d s : ℕ → ℕ) → ℕ → ℕ
gain d s k = sum_in (λ i. d (s i)) k

module _ (demand : ℕ → ℤ) (d : ℕ → ℕ) (m n w : ℕ) (wt : ℕ → ℕ → ℕ)
    (sound : Sound demand d m n wt) where
  -- No choice within the budget gains more than the table says.
  table_value_most :
      (k b : ℕ) (s : ℕ → ℕ)
      → k ≤ n
      → b ≤ w
      → ((i : ℕ) → i < k → s i < m)
      → cost wt s k ≤ b
      → gain d s k ≤ table_value demand d m n w wt sound k b
  unfolding sum_in
  table_value_most zero b s hk hb in_range fits = omega arith
  table_value_most (suc k) b s hk hb in_range fits =
      let r = dyna-RowRight demand d m n w wt sound k (omega arith) in
      let u = r.filled.cell b (omega arith) in
      let rest =
        table_value_most k (b - wt k (s k)) s (omega arith) (omega arith)
          (λ i l. in_range i (omega arith)) (omega arith) in
      rw u.f_value (omega (arith, rest, u.most (s k) (in_range k (omega arith)) (omega arith)))

  -- The states `t` that the loop gives to the first `k` cpus that are listed.
  record Chosen (proxy : ℕ → ℕ) (k b : ℕ) (before t : ℕ → ℕ) : Type 0 where
    ranged : (i : ℕ) → i < k → t (proxy i) < m
    fits : cost wt (λ i. t (proxy i)) k ≤ b
    gains : gain d (λ i. t (proxy i)) k ≡ table_value demand d m n w wt sound k b
    others : (c : ℕ) → ((i : ℕ) → i < k → proxy i ≢ c) → t c ≡ before c

  backtrack_step :
      (proxy : ℕ → ℕ) (k b choice : ℕ) (sel : ℕ → ℕ)
      → (dyna demand m w wt (suc k) b).sol ≡ pos choice
      → wt k choice ≤ b
      → backtrack demand m w wt proxy (suc k) (suc b) sel
        ≡ backtrack demand m w wt proxy k (suc (b - wt k choice)) (update sel (proxy k) choice)
  unfolding backtrack first_down
  backtrack_step proxy k b choice sel e h = rw (backtrack, here, e, same h) refl
    where
      here : first_down (λ b'. leb_ℤ (pos 0) (dyna demand m w wt (suc k) b').sol) (suc b) ≡ some b
      here = rw e (ground arith)

      same : {x y : ℕ} → x ≤ y → suc y - x ≡ suc (y - x)
      same h = omega arith

  step-Chosen :
      (proxy : ℕ → ℕ) (k b : ℕ) (sel t : ℕ → ℕ)
      → ((i j : ℕ) → i < n → j < i → proxy j ≢ proxy i)
      → k < n
      → (u : Most
          (table_value demand d m n w wt sound k)
          d
          (wt k)
          b
          m
          (dyna demand m w wt (suc k) b).f
          (dyna demand m w wt (suc k) b).sol)
      → Chosen proxy k (b - wt k u.choice) (update sel (proxy k) u.choice) t
      → Chosen proxy (suc k) b sel t
  unfolding sum_in
  step-Chosen proxy k b sel t differ hk u v =
      let last : t (proxy k) ≡ u.choice =
        v.others (proxy k) (λ i l. differ k i hk l) ∙ ground arith in
      record {
        ranged = λ i l. elim (Bool-cases (i == k)) [
          | inl same ↦ let q : i ≡ k = ground arith in rw (q, last) u.exists
          | inr other ↦ v.ranged i (ground arith)
        ];
        fits = rw last (omega (arith, v.fits, u.fits));
        gains = rw (last, u.f_value) (omega (arith, v.gains, u.gains));
        others = λ c h. v.others c (λ i l. h i (omega arith)) ∙ ground (arith, h k);
      }

  backtrack-Chosen :
      (proxy : ℕ → ℕ) (k b : ℕ) (sel : ℕ → ℕ)
      → ((i j : ℕ) → i < n → j < i → proxy j ≢ proxy i)
      → k ≤ n
      → b ≤ w
      → Chosen proxy k b sel (backtrack demand m w wt proxy k (suc b) sel)
  unfolding sum_in dyna backtrack
  backtrack-Chosen proxy zero b sel differ hk hb = record {
    ranged = λ i l. absurd (omega arith);
    fits = omega arith;
    gains = refl;
    others = λ c h. refl;
  }
  backtrack-Chosen proxy (suc k) b sel differ hk hb =
      let r = dyna-RowRight demand d m n w wt sound k (omega arith) in
      let u = r.filled.cell b (omega arith) in
      let v =
        backtrack-Chosen proxy k (b - wt k u.choice) (update sel (proxy k) u.choice) differ
          (omega arith) (omega arith) in
      rw (backtrack_step proxy k b u.choice sel u.sol_choice u.fits)
        (step-Chosen proxy k b sel _ differ hk u v)

-- For positive demands, awake cpus that are listed without repetition and are all in states that exist:
-- `mck` gives each of the `n` cpus a state that exists, the states differ from those that the cpus
-- have by the delta `w` at most, all together, and no other choice of states within the delta gains a
-- larger sum of demands. It gives nothing to cpus that are not listed.
pub mck_optimal :
    (n m w : ℕ) (demand : ℕ → ℤ) (d cur proxy sel : ℕ → ℕ)
    → ((j : ℕ) → j < m → demand j ≡ pos (d j))
    → ((j : ℕ) → j < m → 0 < d j)
    → ((i : ℕ) → i < n → cur (proxy i) < m)
    → ((i j : ℕ) → i < n → j < i → proxy j ≢ proxy i)
    → let t = mck n m w demand cur proxy sel in
      let wt = weight cur proxy in
      ((i : ℕ) → i < n → t (proxy i) < m)
      × (cost wt (λ i. t (proxy i)) n ≤ w)
      × ((s : ℕ → ℕ)
          → ((i : ℕ) → i < n → s i < m)
          → cost wt s n ≤ w
          → gain d s n ≤ gain d (λ i. t (proxy i)) n)
      × ((c : ℕ) → ((i : ℕ) → i < n → proxy i ≢ c) → t c ≡ sel c)
unfolding mck
mck_optimal n m w demand d cur proxy sel is_d d_pos in_range differ =
    let sound : Sound demand d m n (weight cur proxy) = record {
      is_d = is_d;
      d_pos = d_pos;
      home = λ i l. (cur (proxy i), in_range i l, omega arith);
    } in
    let v =
      backtrack-Chosen demand d m n w (weight cur proxy) sound proxy n w sel differ (omega arith)
        (omega arith) in
    (
      v.ranged,
      v.fits,
      λ s r f. omega (
        arith,
        table_value_most demand d m n w (weight cur proxy) sound n w s (omega arith) (omega arith) r
            f,
        v.gains,
      ),
      v.others,
    )
