-- ===== src/Mutate/Greedy/Run/Books.antt =====
-- The books that `greedy_delta` writes: the selected cpus in their new states, and what the calls of
-- `set_freq` then do to them.
use seeker_scheduler.Common.{
  ℕ, suc, ◌≤◌, ◌<◌, ◌≡◌, refl, ap, ◌∙◌, inl, inr, Bool-cases, true, ltb, ◌==◌, ◌&&◌, if◌then◌else◌,
  pos, ◌+ℤ◌, for_up_inv, count_in, arith, ==_iff,
}
use seeker_scheduler.Kernel.{Cpumask}
use seeker_scheduler.States.{Sys, demand_clear}
use seeker_scheduler.Mutate.Greedy.{Auction}
use seeker_scheduler.Mutate.Greedy.Run.{
  NewState, Provision, provide_at, provide_round, provide, commit,
}

-- The place of a cpu in the new books: one more than its new state, or 0 if it is not selected.
abbrev pub seat : Auction → ℕ → ℕ
seat a i = if a.selected_cpus i == 1 then 0 else suc (a.new_cpu_state i)

module _ (K : Cpumask) (a : Auction) where
  -- After `m` cpus.
  record Provided (m : ℕ) (p : Provision K.Mask) : Type 0 where
    counted : (k : ℕ) → (p.new_states k).cpus ≡ pos (count_in (seat a) m (suc k))
    masked :
        (k c : ℕ)
        → c < K.nr_cpus
        → K.isset c (p.new_states k).cpumask ≡ (ltb c m && seat a c == suc k)

  provide_round-Provided :
      (m : ℕ) (p : Provision K.Mask)
      → m < K.nr_cpus
      → Provided m p
      → Provided (suc m) (provide_round K a m p)
  unfolding provide_round provide_at count_in ◌+ℤ◌
  provide_round-Provided m p l v = elim (Bool-cases (a.selected_cpus m == 1)) [
    | inl skip ↦ rw skip (record {
      counted = λ k. ground (arith, v.counted k);
      masked = λ k c h. ground (arith, v.masked k c h);
    })
    | inr take ↦ rw take (record {
      counted = λ k. ground (arith, v.counted k, v.counted (a.new_cpu_state m));
      masked = λ k c h. ground (
        arith,
        v.masked k c h,
        v.masked (a.new_cpu_state m) c h,
        K.isset-set m c (p.new_states (a.new_cpu_state m)).cpumask,
      );
    })
  ]

  provide-Provided : (n : ℕ) → n ≤ K.nr_cpus → Provided n (provide K n a)
  unfolding provide count_in
  provide-Provided n h =
      for_up_inv Provided n (provide_round K a) _
        (record { counted = λ k. refl; masked = λ k c l. K.isset-none c ∙ ground arith })
        (λ m p l v. provide_round-Provided m p (omega arith) v)

-- What `commit` has done after `m` states.
record Committed (K : Cpumask) (new_states : ℕ → NewState K.Mask) (s : Sys K.Mask) (m : ℕ)
    (t : Sys K.Mask) : Type 0 where
  total : t.total_states ≡ s.total_states
  cur : t.cur_cpu_state ≡ s.cur_cpu_state
  written :
      (k : ℕ)
      → k < m
      → ((t.states k).cpus ≡ (new_states k).cpus)
        × ((t.states k).cpumask ≡ (new_states k).cpumask)
        × ((t.states k).demand ≡ pos 0)

commit-Committed :
    (K : Cpumask) (new_states : ℕ → NewState K.Mask) (s : Sys K.Mask)
    → Committed K new_states s s.total_states (commit K new_states s)
unfolding commit demand_clear
commit-Committed K new_states s =
    for_up_inv (Committed K new_states s) s.total_states _ s
      (record { total = refl; cur = refl; written = λ k l. absurd (omega arith) })
      (λ m t l v. record {
        total = v.total;
        cur = v.cur;
        written = λ k h. elim (Bool-cases (m == k)) [
          | inl here ↦
              let e = (==_iff m k).0 here in
              (
                rw (here, ==_self m) (ap (λ i. (new_states i).cpus) e),
                rw (here, ==_self m) (ap (λ i. (new_states i).cpumask) e),
                rw here refl,
              )
          | inr past ↦ rw past (v.written k (ground arith))
        ];
      })
  where
    ==_self : (m : ℕ) → (m == m) ≡ true
    ==_self m = ground arith

-- For no more cpus than NR_CPUS, the critical section writes consistent books for the selected cpus: each state's count and mask hold
-- the selected cpus whose new state it is, and no others; and every demand is 0 again.
pub commit-provide :
    (K : Cpumask) (a : Auction) (n : ℕ) (s : Sys K.Mask) (k : ℕ)
    → n ≤ K.nr_cpus
    → k < s.total_states
    → let t = commit K (provide K n a).new_states s in
      ((t.states k).cpus ≡ pos (count_in (seat a) n (suc k)))
      × ((t.states k).demand ≡ pos 0)
      × ((c : ℕ) → c < K.nr_cpus → K.isset c (t.states k).cpumask ≡ (ltb c n && seat a c == suc k))
      × (t.cur_cpu_state ≡ s.cur_cpu_state)
commit-provide K a n s k h l =
    let p = provide-Provided K a n h in
    let v = commit-Committed K (provide K n a).new_states s in
    let (c, m, d) = v.written k l in
    (c ∙ p.counted k, d, (λ i li. ap (K.isset i) m ∙ p.masked k i li), v.cur)

pub commit-cur :
    (K : Cpumask) (a : Auction) (n : ℕ) (s : Sys K.Mask)
    → (commit K (provide K n a).new_states s).cur_cpu_state ≡ s.cur_cpu_state
commit-cur K a n s = (commit-Committed K (provide K n a).new_states s).cur
