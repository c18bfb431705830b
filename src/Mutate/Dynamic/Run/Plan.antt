-- ===== src/Mutate/Dynamic/Run/Plan.antt =====
-- The plan of an interval: who is awake, and in which state.
use seeker_scheduler.Common.{
  ℕ, suc, ◌≤◌, ◌<◌, ◌≡◌, ◌≢◌, refl, ap, sym, ◌∙◌, ℤ, pos, negsuc, pos_part, neg_part, ◌+ℤ◌,
  +ℤ_parts, ◌≤ℤ◌, count_in_rank, arith,
}
use seeker_scheduler.States.{Sys, demand_get}
use seeker_scheduler.Tasks.{get_cpu_tasks}
use seeker_scheduler.Mutate.{ProcInfo, uint_max, wake_up_procs}
use seeker_scheduler.Mutate.Wake.{AllSane, awake_count, wake_up_procs_lem}
use seeker_scheduler.Mutate.Proxy.{ListsAwake, retire_procs_lem}
use seeker_scheduler.Mutate.Dynamic.{mck, weight, delta_based_demand_transform}
use seeker_scheduler.Mutate.Dynamic.Optimal.{cost, gain, mck_optimal}
use seeker_scheduler.Mutate.Dynamic.Handed.{delta_based_demand_transform_lem}
use seeker_scheduler.Mutate.Dynamic.Run.{Arrays, cpus_required, plan}

-- A list of the awake cpus has no repetitions, and each of its cells is an awake cpu.
listed_awake :
    (n : ℕ) (info : ℕ → ProcInfo) (proxy : ℕ → ℕ)
    → ListsAwake n info proxy
    → (i : ℕ) → i < awake_count info n
    → (proxy i < n) × ((info (proxy i)).awake ≡ 1) × (awake_count info (proxy i) ≡ i)
listed_awake n info proxy lists i l =
    let (c, lc, a, r) = count_in_rank (λ c. (info c).awake) n 1 i l in
    let e : proxy i ≡ c = ap proxy (sym r) ∙ lists c lc a in rw e (lc, a, r)

pos_of_lt : (a : ℤ) → suc (neg_part a) ≤ pos_part a → a ≡ pos (pos_part a)
pos_of_lt (pos x) h = refl
pos_of_lt (negsuc x) h = absurd (omega arith)

-- What the plan is to be, for `total` cpus.
pub record Planned (m n total delta : ℕ) (cur : ℕ → ℕ) (r : Arrays) : Type 0 where
  pub awake : (i : ℕ) → i < total → (r.info (r.cpu_awake_proxy i)).awake ≡ 1
  pub distinct : (i j : ℕ) → i < total → j < i → r.cpu_awake_proxy j ≢ r.cpu_awake_proxy i
  pub ranged : (i : ℕ) → i < total → r.new_cpu_state (r.cpu_awake_proxy i) < m
  pub within :
      cost (weight cur r.cpu_awake_proxy) (λ i. r.new_cpu_state (r.cpu_awake_proxy i)) total ≤ delta
  pub best :
      (s : ℕ → ℕ)
      → ((i : ℕ) → i < total → s i < m)
      → cost (weight cur r.cpu_awake_proxy) s total ≤ delta
      → gain (λ j. pos_part (r.demand j)) s total
        ≤ gain (λ j. pos_part (r.demand j)) (λ i. r.new_cpu_state (r.cpu_awake_proxy i)) total

module _ (m n total delta : ℕ) (cur : ℕ → ℕ) where
  choose_Planned :
      (info : ℕ → ProcInfo) (put proxy sel : ℕ → ℕ) (hints : ℕ → ℤ)
      → 0 < total
      → total ≤ awake_count info n
      → ListsAwake n info proxy
      → ((j : ℕ) → j < m → pos 0 ≤ℤ hints j)
      → ((c : ℕ) → c < n → cur c < m)
      → let demand = delta_based_demand_transform m total delta cur proxy (λ j. hints j +ℤ pos 1) in
        Planned m n total delta cur (record {
          info = info;
          put_to_sleep = put;
          cpu_awake_proxy = proxy;
          new_cpu_state = mck total m delta demand cur proxy sel;
          demand = demand;
        })
  choose_Planned info put proxy sel hints some_cpu enough lists natural in_range =
      let demand = delta_based_demand_transform m total delta cur proxy (λ j. hints j +ℤ pos 1) in
      let rank = λ (i : ℕ) (l : i < total). listed_awake n info proxy lists i (omega arith) in
      let distinct : (i j : ℕ) → i < total → j < i → proxy j ≢ proxy i = λ i j l h e.
        omega (arith, (rank i l).2, (rank j (omega arith)).2, ap (awake_count info) e) in
      let (sum, more, out) =
        delta_based_demand_transform_lem m total delta cur proxy (λ j. hints j +ℤ pos 1)
          (λ i l. omega (arith, natural i l, +ℤ_parts (hints i) (pos 1))) 0 some_cpu
          (in_range (proxy 0) (rank 0 some_cpu).0) in
      let positive : (j : ℕ) → j < m → suc (neg_part (demand j)) ≤ pos_part (demand j) =
        λ j l. omega (arith, more j, natural j l, +ℤ_parts (hints j) (pos 1)) in
      let (ranged, within, best, others) =
        mck_optimal total m delta demand (λ j. pos_part (demand j)) cur proxy sel
          (λ j l. pos_of_lt (demand j) (positive j l)) (λ j l. omega (arith, positive j l))
          (λ i l. in_range (proxy i) (rank i l).0) distinct in
      record {
        awake = λ i l. (rank i l).1;
        distinct = distinct;
        ranged = ranged;
        within = within;
        best = best;
      }

-- If more cpus are awake than are required, their flags are in agreement, all are in states that exist,
-- and no hint is below 0: the plan gives as many different awake cpus as are required states that exist,
-- which differ from those they have by the delta at most, all together; and of all such choices it is
-- one with the largest sum of demands.
pub plan-Planned :
    {M : Type 0} (running : ℕ → ℕ) (delta : ℕ) (s : Sys M) (a : Arrays)
    → AllSane a.info s.total_online_cpus
    → s.total_online_cpus < uint_max
    → cpus_required running s < awake_count a.info s.total_online_cpus
    → ((j : ℕ) → j < s.total_states → pos 0 ≤ℤ demand_get j s)
    → ((c : ℕ) → c < s.total_online_cpus → s.cur_cpu_state c < s.total_states)
    → Planned s.total_states s.total_online_cpus
        (cpus_required running s)
        delta
        s.cur_cpu_state
        (plan running delta s a)
unfolding plan cpus_required
plan-Planned running delta s a sane small more natural in_range =
    let n = s.total_online_cpus in
    let total = cpus_required running s in
    let w = wake_up_procs_lem total n a.info sane small in
    let (enough, fates, ended, lists) =
      retire_procs_lem (get_cpu_tasks running) total n (wake_up_procs total n a.info) a.put_to_sleep
        a.cpu_awake_proxy w.0 (omega (arith, w.1)) in
    choose_Planned s.total_states n total delta s.cur_cpu_state _ _ _ a.new_cpu_state
      (λ j. demand_get j s) (ground arith) enough lists natural in_range
