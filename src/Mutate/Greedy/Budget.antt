-- ===== src/Mutate/Greedy/Budget.antt =====
-- The auction as a whole, and what is left of its delta.
use seeker_scheduler.Common.{
  ℕ, suc, ◌+◌, ◌-◌, ◌≤◌, ◌<◌, ◌≡◌, ap, ℤ, pos, pos_part, neg_part, ◌-ℤ◌, -ℤ_parts, eq_of_parts,
  ◌≤ℤ◌, dist, update, for_up_inv, count_in, count_in_none, sum_in_zero, count_in-update_lt, sum_in,
  sum_in-ext, sum_in-update_lt, arith,
}
use seeker_scheduler.Mutate.Greedy.{Auction, award, auction_round, auction}
use seeker_scheduler.Mutate.Greedy.Round.{Round, over, stops, awards, auction_round-Round}

-- How far the cpus are from the states that they had, all together.
abbrev pub moved : (cur new : ℕ → ℕ) → ℕ → ℕ
moved cur new n = sum_in (λ i. dist (cur i) (new i)) n

-- After at most `m` rounds of an auction with the budget `delta`, from the states `cur`.
pub record Spent (total_states n delta : ℕ) (cur : ℕ → ℕ) (m : ℕ) (a : Auction) : Type 0 where
  pub rest : ℕ
  pub has_rest : a.delta ≡ pos rest
  pub paid : rest + moved cur a.new_cpu_state n ≡ delta
  pub bit : (i : ℕ) → i < n → a.selected_cpus i ≤ 1
  pub idle : (i : ℕ) → i < n → a.selected_cpus i ≡ 1 → a.new_cpu_state i ≡ cur i
  pub ranged : (i : ℕ) → i < n → a.new_cpu_state i < total_states
  pub count : count_in a.selected_cpus n 0 ≡ a.total_selected_cpus
  pub rounds : a.total_selected_cpus ≤ m

moved-award :
    (cur new : ℕ → ℕ) (n p w : ℕ)
    → p < n
    → new p ≡ cur p
    → moved cur (update new p w) n ≡ moved cur new n + dist (cur p) w
moved-award cur new n p w h e = omega (
  arith,
  sum_in-ext (λ i. dist (cur i) (update new p w i))
      (update (λ i. dist (cur i) (new i)) p (dist (cur p) w)) n (λ i l. ground arith),
  sum_in-update_lt (λ i. dist (cur i) (new i)) n p (dist (cur p) w) h,
  e,
)

module _ (total_states n load : ℕ) (total direction : ℤ) (cur : ℕ → ℕ) (before : ℕ → ℤ)
    (d : ℕ) where
  award-Spent :
      (w p m : ℕ) (source : ℕ → ℕ) (a : Auction)
      → w < total_states
      → p < n
      → a.selected_cpus p ≡ 1
      → pos (dist (a.new_cpu_state p) w) ≤ℤ a.delta
      → Spent total_states n d cur m a
      → Spent total_states n d cur
          (suc m)
          (award total_states n load total direction cur before w p source a)
  unfolding award
  award-Spent w p m source a lw lp one near v =
      let same = v.idle p lp one in
      let r = ap pos_part v.has_rest in
      record {
        rest = v.rest - dist (cur p) w;
        has_rest = rw v.has_rest (
            eq_of_parts (pos v.rest -ℤ pos (dist (cur p) w)) (pos (v.rest - dist (cur p) w)) (
              omega (
                arith,
                -ℤ_parts (pos v.rest) (pos (dist (cur p) w)),
                near,
                same,
                r,
                ap neg_part v.has_rest,
              )));
        paid = omega (
          arith,
          moved-award cur a.new_cpu_state n p w lp same,
          v.paid,
          near,
          same,
          r,
          ap neg_part v.has_rest,
        );
        bit = λ i l. ground (arith, v.bit i l);
        idle = λ i l e. ground (arith, v.idle i l);
        ranged = λ i l. ground (arith, v.ranged i l);
        count = ground (arith, count_in-update_lt a.selected_cpus n 0 p 0 lp, v.count);
        rounds = omega (arith, v.rounds);
      }

  auction_round-Spent :
      (m : ℕ) (a : Auction)
      → Spent total_states n d cur m a
      → Spent total_states n d cur
          (suc m)
          (auction_round total_states n load total direction cur before a)
  auction_round-Spent m a v =
      step (auction_round total_states n load total direction cur before a)
        (auction_round-Round total_states n load total direction cur before a v.bit)
    where
      step :
          (b : Auction)
          → Round total_states n load total direction cur before a b
          → Spent total_states n d cur (suc m) b
      step b over = record {
        rest = v.rest;
        has_rest = v.has_rest;
        paid = v.paid;
        bit = v.bit;
        idle = v.idle;
        ranged = v.ranged;
        count = v.count;
        rounds = omega (arith, v.rounds);
      }
      step b stops = record {
        rest = v.rest;
        has_rest = v.has_rest;
        paid = v.paid;
        bit = v.bit;
        idle = v.idle;
        ranged = v.ranged;
        count = v.count;
        rounds = omega (arith, v.rounds);
      }
      step b (awards w p source lw lp pd one near) = award-Spent w p m source a lw lp one near v

  -- An auction that starts with no cpu selected, each in a state that exists and keeping it, never spends more than its
  -- delta: the cpus' moves and what is left of it make up the delta. It selects one cpu for each
  -- round that awards, `load` at most; only selected cpus move, and all to states that exist.
  pub auction-Spent :
      (a : Auction)
      → a.delta ≡ pos d
      → a.total_selected_cpus ≡ 0
      → ((i : ℕ) → i < n → a.selected_cpus i ≡ 1)
      → ((i : ℕ) → i < n → a.new_cpu_state i ≡ cur i)
      → ((i : ℕ) → i < n → cur i < total_states)
      → Spent total_states n d cur load (auction total_states n load total direction cur before a)
  unfolding auction
  auction-Spent a e z one same ranged =
      for_up_inv (Spent total_states n d cur) load
        (λ i. auction_round total_states n load total direction cur before) a
        (record {
          rest = d;
          has_rest = e;
          paid = omega (
            arith,
            sum_in_zero (λ i. dist (cur i) (a.new_cpu_state i)) n (λ i l. omega (arith, same i l)),
          );
          bit = λ i l. omega (arith, one i l);
          idle = λ i l h. same i l;
          ranged = λ i l. omega (arith, same i l, ranged i l);
          count =
              omega (arith, count_in_none a.selected_cpus n 0 (λ i l h. omega (arith, one i l)), z);
          rounds = omega arith;
        })
        (λ m b l v. auction_round-Spent m b v)
