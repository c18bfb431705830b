-- ===== src/States/Invariant.antt =====
-- When the bookkeeping of state.c agrees with the states that the cpus are in.
use seeker_scheduler.Common.{
  ℕ, ◌≤◌, ◌<◌, ◌≡◌, ◌≢◌, Bool, ◌&&◌, ltb, ◌==◌, pos, ◌+ℤ◌, ◌-ℤ◌, update, arith, inl, inr,
  Bool-cases, ==_iff,
}
use seeker_scheduler.Kernel.{Cpumask}
use seeker_scheduler.States.{Sys, add_cpu, drop_cpu, move_cpu, seeker_cpufreq_inform, log_cpu_state}
use seeker_scheduler.Common.{count_in, count_in-update_lt, count_in-pos}

-- The first `n` cpus stand in the books: each state counts them and its mask holds them, and no
-- others.
pub record Booked (K : Cpumask) (n : ℕ) (s : Sys K.Mask) : Type 0 where
  pub counted :
      (k : ℕ) → k < s.total_states → (s.states k).cpus ≡ pos (count_in s.cur_cpu_state n k)
  pub masked :
      (k c : ℕ)
      → k < s.total_states
      → c < s.total_online_cpus
      → K.isset c (s.states k).cpumask ≡ (ltb c n && s.cur_cpu_state c == k)
  pub ranged : (c : ℕ) → c < n → s.cur_cpu_state c < s.total_states
  pub fits : s.total_online_cpus ≤ K.nr_cpus

abbrev pub Consistent : (K : Cpumask) → Sys K.Mask → Type 0
Consistent K s = Booked K s.total_online_cpus s

module _ (K : Cpumask) (s : Sys K.Mask) where
  move_cpu-Consistent :
      (cpu state : ℕ)
      → cpu < s.total_online_cpus
      → state < s.total_states
      → s.cur_cpu_state cpu ≢ state
      → Consistent K s
      → Consistent K (move_cpu K cpu state s)
  unfolding move_cpu add_cpu drop_cpu ◌+ℤ◌ ◌-ℤ◌
  move_cpu-Consistent cpu state h l ne b = record {
    counted = λ k hk. ground (
      arith,
      b.counted k hk,
      b.counted state l,
      b.counted (s.cur_cpu_state cpu) (b.ranged cpu h),
      count_in-update_lt s.cur_cpu_state s.total_online_cpus k cpu state h,
      count_in-pos s.cur_cpu_state s.total_online_cpus cpu h,
    );
    masked = λ k c hk hc. ground (
      arith,
      b.masked k c hk hc,
      b.masked state c l hc,
      b.masked (s.cur_cpu_state cpu) c (b.ranged cpu h) hc,
      K.isset-set cpu c (s.states state).cpumask,
      K.isset-clear cpu c (s.states (s.cur_cpu_state cpu)).cpumask,
      b.fits,
    );
    ranged = λ c hc. ground (arith, b.ranged c hc);
    fits = b.fits;
  }

  -- Writing the state that a cpu is in already, and logging, change nothing in the books.
  rewrite-Consistent :
      (cpu state : ℕ) (jiffies : ℕ → ℕ)
      → cpu < s.total_online_cpus
      → s.cur_cpu_state cpu ≡ state
      → Consistent K s
      → Consistent K
          (record s { cur_cpu_state = update s.cur_cpu_state cpu state; current_jiffies = jiffies })
  rewrite-Consistent cpu state jiffies h e b = record {
    counted = λ k hk. ground (
      arith,
      b.counted k hk,
      count_in-update_lt s.cur_cpu_state s.total_online_cpus k cpu state h,
    );
    masked = λ k c hk hc. ground (arith, b.masked k c hk hc);
    ranged = λ c hc. ground (arith, b.ranged c hc);
    fits = b.fits;
  }

module _ (K : Cpumask) where
  -- What `log_cpu_state` leaves of a state.
  pub log_cpu_state_frame :
      (now hz : ℕ) (log_open : Bool) (cpu : ℕ) (s : Sys K.Mask)
      → (jiffies : ℕ → ℕ) × ((log_cpu_state now hz log_open cpu s).0
          ≡ record s { current_jiffies = jiffies })
  unfolding log_cpu_state
  log_cpu_state_frame now hz log_open cpu s = elim (Bool-cases (now == s.current_jiffies cpu)) [
    | inl same ↦ (s.current_jiffies, ground arith)
    | inr later ↦ (update s.current_jiffies cpu now, ground arith)
  ]

  -- On consistent books `seeker_cpufreq_inform`, for an online cpu and a state that exists, keeps them:
  -- each state's mask and count agree with the cpus' states
  -- again, the informed cpu is in the given state, and the others are where they were.
  pub inform-Consistent :
      (now hz : ℕ) (log_open : Bool) (cpu state : ℕ) (s : Sys K.Mask)
      → cpu < s.total_online_cpus
      → state < s.total_states
      → Consistent K s
      → let t = (seeker_cpufreq_inform K now hz log_open cpu state s).0 in
        Consistent K t
        × (t.cur_cpu_state cpu ≡ state)
        × ((c : ℕ) → c ≢ cpu → t.cur_cpu_state c ≡ s.cur_cpu_state c)
  unfolding seeker_cpufreq_inform
  inform-Consistent now hz log_open cpu state s h l b =
      elim (Bool-cases (s.cur_cpu_state cpu == state)) [
        | inl same ↦
            rw (same, (log_cpu_state_frame now hz log_open cpu s).1)
              (
                rewrite-Consistent K s cpu state _ h ((==_iff _ _).0 same) b,
                ground arith,
                λ c ne. ground arith,
              )
        | inr moves ↦
            rw (moves, (log_cpu_state_frame now hz log_open cpu (move_cpu K cpu state s)).1)
              (
                rewrite-Consistent K (move_cpu K cpu state s) cpu state _ h (ground arith)
                    (move_cpu-Consistent K s cpu state h l (ground arith) b),
                ground arith,
                λ c ne. ground arith,
              )
      ]
