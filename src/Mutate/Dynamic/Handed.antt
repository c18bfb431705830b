-- ===== src/Mutate/Dynamic/Handed.antt =====
-- What `delta_based_demand_transform` makes of the demands, all together.
use seeker_scheduler.Common.{
  ℕ, zero, suc, ◌+◌, ◌<◌, ◌≡◌, refl, ap, inl, inr, Bool, Bool-cases, true, false, if◌then◌else◌,
  ◌==◌, ℤ, pos, pos_part, ◌+ℤ◌, +ℤ_parts, ◌≤ℤ◌, eqb_ℤ, update, for_up_inv, sum_in, sum_in-ext,
  sum_in-update_lt, arith,
}
use seeker_scheduler.Mutate.Dynamic.{
  can_win, hand_over, transform_round, delta_based_demand_transform,
}
use seeker_scheduler.Mutate.Dynamic.Transform.{neighbour-Nearest, can_win_iff}

-- The demands for all states.
abbrev pub total_demand : (ℕ → ℤ) → ℕ → ℕ
total_demand demand m = sum_in (λ i. pos_part (demand i)) m

module _ (wins : ℕ → Bool) where
  -- The demands for the states that can win, and those for the others.
  abbrev pub winnable : (ℕ → ℤ) → ℕ → ℕ
  winnable demand m = sum_in (λ i. if wins i then pos_part (demand i) else 0) m

  abbrev lost : (ℕ → ℤ) → ℕ → ℕ
  lost demand m = sum_in (λ i. if wins i then 0 else pos_part (demand i)) m

  winnable-lost :
      (demand : ℕ → ℤ) (m : ℕ) → winnable demand m + lost demand m ≡ total_demand demand m
  unfolding sum_in
  winnable-lost demand zero = omega arith
  winnable-lost demand (suc m) = ground (arith, winnable-lost demand m)

  -- A state that can win is handed more.
  winnable-update :
      (demand : ℕ → ℤ) (m friend : ℕ) (x : ℤ)
      → friend < m
      → wins friend ≡ true
      → winnable (update demand friend x) m + pos_part (demand friend)
        ≡ winnable demand m + pos_part x
  winnable-update demand m friend x l w =
      let f = λ (i : ℕ). if wins i then pos_part (demand i) else 0 in
      omega (
        arith,
        sum_in-ext (λ i. if wins i then pos_part (update demand friend x i) else 0)
            (update f friend (pos_part x)) m (λ i h. ground (arith, ap wins)),
        sum_in-update_lt f m friend (pos_part x) l,
        at_friend,
      )
    where
      at_friend : (if wins friend then pos_part (demand friend) else 0) ≡ pos_part (demand friend)
      at_friend = rw w refl

module _ (m : ℕ) (wins : ℕ → Bool) (given : ℕ → ℤ)
    (natural : (i : ℕ) → i < m → pos 0 ≤ℤ given i) where
  -- After the states below `j`.
  record Handed (j : ℕ) (demand : ℕ → ℤ) : Type 0 where
    out : (i : ℕ) → wins i ≡ false → demand i ≡ given i
    more : (i : ℕ) → given i ≤ℤ demand i
    sums : winnable wins demand m ≡ winnable wins given m + lost wins given j

  round-Handed :
      (h : ℕ)
      → h < m
      → wins h ≡ true
      → (j : ℕ) (demand : ℕ → ℤ) → j < m
      → Handed j demand
      → Handed (suc j) (transform_round m wins j demand)
  unfolding transform_round sum_in hand_over
  round-Handed h lh win j demand lj v = elim (Bool-cases (wins j)) [
    | inl in_reach ↦
        rw in_reach
          (record { out = v.out; more = v.more; sums = rw in_reach (omega (arith, v.sums)) })
    | inr past ↦ elim (Bool-cases (eqb_ℤ (demand j) (pos 0))) [
      | inl zero_demand ↦
          rw (past, zero_demand)
            (record {
              out = v.out;
              more = v.more;
              sums = rw past (ground (arith, v.sums, v.out j past));
            })
      | inr some_demand ↦
          let (friend, e, near) = neighbour-Nearest m wins demand j h lj past lh win in
          rw (past, some_demand, e)
            (record {
              out = λ i n. ground (arith, v.out i n, ap wins, near.winner);
              more = λ i. elim (Bool-cases (friend == i)) [
                | inl same ↦ rw same (
                    let q : i ≡ friend = ground arith in
                    rw q (
                      omega (
                        arith,
                        v.more friend,
                        +ℤ_parts (demand friend) (demand j),
                        v.more j,
                        natural j lj,
                      )))
                | inr other ↦ rw other (v.more i)
              ];
              sums = rw past (
                  ground (
                    arith,
                    v.sums,
                    v.out j past,
                    winnable-update wins demand m friend (demand friend +ℤ demand j) near.exists
                        near.winner,
                    +ℤ_parts (demand friend) (demand j),
                    natural j lj,
                    natural friend near.exists,
                    v.more friend,
                  ));
            })
    ]
  ]

-- With a cpu in a state that exists, and no demand below 0: each demand for a state that no cpu reaches with
-- the delta is handed to a state that one does reach, so that these then have the whole demand. No
-- demand falls, and those for the states out of reach stay as they are.
pub delta_based_demand_transform_lem :
    (m cpus delta : ℕ) (cur proxy : ℕ → ℕ) (demand : ℕ → ℤ)
    → ((i : ℕ) → i < m → pos 0 ≤ℤ demand i)
    → (c : ℕ) → c < cpus
    → cur (proxy c) < m
    → let wins = can_win cpus delta cur proxy in
      let after = delta_based_demand_transform m cpus delta cur proxy demand in
      (winnable wins after m ≡ total_demand demand m)
      × ((i : ℕ) → demand i ≤ℤ after i)
      × ((i : ℕ) → wins i ≡ false → after i ≡ demand i)
unfolding delta_based_demand_transform sum_in
delta_based_demand_transform_lem m cpus delta cur proxy demand natural c lc ranged =
    let wins = can_win cpus delta cur proxy in
    let v =
      for_up_inv (Handed m wins demand natural) m (transform_round m wins) demand
        (record { out = λ i n. refl; more = λ i. omega arith; sums = omega arith })
        (λ j t l v. round-Handed m wins demand natural (cur (proxy c)) ranged own j t l v) in
    (omega (arith, v.sums, winnable-lost wins demand m), v.more, v.out)
  where
    own : can_win cpus delta cur proxy (cur (proxy c)) ≡ true
    own = elim (can_win_iff cpus delta cur proxy (cur (proxy c))) [
      | inl (e, i, l, h) ↦ e
      | inr (e, far) ↦ absurd (omega (arith, far c lc))
    ]
