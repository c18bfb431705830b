-- ===== src/States/Counts.antt =====
-- What `seeker_cpufreq_inform` does to the counts, whether or not they are right.
use seeker_scheduler.Common.{
  ℕ, Bool, refl, ◌≡◌, ◌==◌, inl, inr, Bool-cases, ==_iff, ℤ, pos, ◌+ℤ◌, ◌-ℤ◌, update, one_if_eq,
  arith, fun_ext,
}
use seeker_scheduler.Kernel.{Cpumask}
use seeker_scheduler.States.{Sys, add_cpu, drop_cpu, move_cpu, seeker_cpufreq_inform}
use seeker_scheduler.States.Invariant.{log_cpu_state_frame}

-- The informed cpu is counted where it comes to and no longer where it was; the rest stays.
pub record Informed (K : Cpumask) (cpu state : ℕ) (s t : Sys K.Mask) : Type 0 where
  pub total : t.total_states ≡ s.total_states
  pub online : t.total_online_cpus ≡ s.total_online_cpus
  pub cur : t.cur_cpu_state ≡ update s.cur_cpu_state cpu state
  pub cpus :
      (k : ℕ)
      → (t.states k).cpus
        ≡ (s.states k).cpus +ℤ pos (one_if_eq state k) -ℤ pos (one_if_eq (s.cur_cpu_state cpu) k)

module _ (K : Cpumask) (s : Sys K.Mask) (cpu state : ℕ) where
  cancel : (x : ℤ) (n : ℕ) → x ≡ x +ℤ pos n -ℤ pos n
  unfolding ◌+ℤ◌ ◌-ℤ◌
  cancel x n = ground arith

  twice :
      (j : ℕ)
      → update (update s.cur_cpu_state cpu state) cpu state j ≡ update s.cur_cpu_state cpu state j
  twice j = ground arith

  moved_cpus :
      (k : ℕ)
      → ((move_cpu K cpu state s).states k).cpus
        ≡ (s.states k).cpus +ℤ pos (one_if_eq state k) -ℤ pos (one_if_eq (s.cur_cpu_state cpu) k)
  unfolding move_cpu add_cpu drop_cpu ◌+ℤ◌ ◌-ℤ◌
  moved_cpus k = ground arith

  moved_total :
      ((move_cpu K cpu state s).total_states ≡ s.total_states)
      × ((move_cpu K cpu state s).total_online_cpus ≡ s.total_online_cpus)
  unfolding move_cpu
  moved_total = (refl, refl)

  moved_cur :
      (j : ℕ)
      → update (move_cpu K cpu state s).cur_cpu_state cpu state j
        ≡ update s.cur_cpu_state cpu state j
  unfolding move_cpu
  moved_cur j = twice j

  pub inform-Informed :
      (now hz : ℕ) (log_open : Bool)
      → Informed K cpu state s (seeker_cpufreq_inform K now hz log_open cpu state s).0
  unfolding seeker_cpufreq_inform
  inform-Informed now hz log_open = elim (Bool-cases (s.cur_cpu_state cpu == state)) [
    | inl same ↦
        rw (same, (log_cpu_state_frame K now hz log_open cpu s).1)
          (record {
            total = refl;
            online = refl;
            cur = refl;
            cpus = λ k.
                rw ((==_iff (s.cur_cpu_state cpu) state).0 same)
                  (cancel (s.states k).cpus (one_if_eq state k));
          })
    | inr moves ↦
        rw (moves, (log_cpu_state_frame K now hz log_open cpu (move_cpu K cpu state s)).1)
          (record {
            total = moved_total.0;
            online = moved_total.1;
            cur = fun_ext (λ j. moved_cur j);
            cpus = moved_cpus;
          })
  ]

  -- A cpu that is in the state already.
  pub stay-Informed : s.cur_cpu_state cpu ≡ state → Informed K cpu state s s
  stay-Informed e = record {
    total = refl;
    online = refl;
    cur = fun_ext (λ j. ground (arith, e));
    cpus = λ k. rw e (cancel (s.states k).cpus (one_if_eq state k));
  }
