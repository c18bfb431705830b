-- ===== src/States/Reach.antt =====
-- The states that the calls into state.c lead to, in any order.
use seeker_scheduler.Common.{
  ℕ, [], List, ◌≤◌, ◌<◌, Bool, ℤ, pos, ◌+ℤ◌, ◌-ℤ◌, update, for_up_inv, arith,
}
use seeker_scheduler.Kernel.{Cpumask}
use seeker_scheduler.States.{
  Sys, LogState, demand_inc, demand_dec, demand_clear, log_cpu_state, state_logger,
  seeker_cpufreq_inform,
}
use seeker_scheduler.States.Init.{init_cpu_states}
use seeker_scheduler.States.Init.Booking.{init-Consistent}
use seeker_scheduler.States.Invariant.{Consistent, inform-Consistent, log_cpu_state_frame}

-- One call, as the other parts make it: the callback of seeker_cpufreq for an online cpu and a state
-- that exists, a change of a demand, or the logger's work item.
pub data Step (K : Cpumask) (s : Sys K.Mask) : Sys K.Mask → Type 0 where
  informed :
      (now hz : ℕ) (log_open : Bool) (cpu state : ℕ)
      → cpu < s.total_online_cpus
      → state < s.total_states
      → Step K s (seeker_cpufreq_inform K now hz log_open cpu state s).0
  asked : (state : ℕ) → Step K s (demand_inc state s)
  unasked : (state : ℕ) → Step K s (demand_dec state s)
  cleared : (state : ℕ) → Step K s (demand_clear state s)
  logged : (now hz : ℕ) (log_open : Bool) → Step K s (state_logger now hz log_open s).0

pub data Steps (K : Cpumask) (s : Sys K.Mask) : Sys K.Mask → Type 0 where
  start : Steps K s s
  next : {t u : Sys K.Mask} → Steps K s t → Step K t u → Steps K s u

module _ (K : Cpumask) where
  -- A demand is no part of the books.
  with_demand-Consistent :
      (s : Sys K.Mask) (k : ℕ) (d : ℤ)
      → Consistent K s
      → Consistent K (record s { states = update s.states k (record (s.states k) { demand = d }) })
  with_demand-Consistent s k d b = record {
    counted = λ j h. ground (arith, b.counted j h);
    masked = λ j c h l. ground (arith, b.masked j c h l);
    ranged = b.ranged;
    fits = b.fits;
  }

  demands-Consistent :
      (s : Sys K.Mask) (k : ℕ)
      → Consistent K s
      → Consistent K (demand_inc k s)
        × Consistent K (demand_dec k s)
        × Consistent K (demand_clear k s)
  unfolding demand_inc demand_dec demand_clear
  demands-Consistent s k b =
      let d = (s.states k).demand in
      (
        with_demand-Consistent s k (d +ℤ pos 1) b,
        with_demand-Consistent s k (d -ℤ pos 1) b,
        with_demand-Consistent s k (pos 0) b,
      )

  log_cpu_state-Consistent :
      (now hz : ℕ) (log_open : Bool) (cpu : ℕ) (s : Sys K.Mask)
      → Consistent K s
      → Consistent K (log_cpu_state now hz log_open cpu s).0
  log_cpu_state-Consistent now hz log_open cpu s b =
      rw (log_cpu_state_frame K now hz log_open cpu s).1
        (record { counted = b.counted; masked = b.masked; ranged = b.ranged; fits = b.fits })

  state_logger-Consistent :
      (now hz : ℕ) (log_open : Bool) (s : Sys K.Mask)
      → Consistent K s
      → Consistent K (state_logger now hz log_open s).0
  unfolding state_logger
  state_logger-Consistent now hz log_open s b =
      for_up_inv {S = Sys K.Mask × List LogState} (λ m p. Consistent K p.0) s.total_online_cpus _
        (s, []) b (λ m p l h. log_cpu_state-Consistent now hz log_open m p.0 h)

  Step-Consistent : (s t : Sys K.Mask) → Consistent K s → Step K s t → Consistent K t
  Step-Consistent s t b (informed now hz log_open cpu state l h) =
      (inform-Consistent K now hz log_open cpu state s l h b).0
  Step-Consistent s t b (asked k) = (demands-Consistent s k b).0
  Step-Consistent s t b (unasked k) = (demands-Consistent s k b).1
  Step-Consistent s t b (cleared k) = (demands-Consistent s k b).2
  Step-Consistent s t b (logged now hz log_open) = state_logger-Consistent now hz log_open s b

  Steps-Consistent : (s t : Sys K.Mask) → Consistent K s → Steps K s t → Consistent K t
  Steps-Consistent s t b start = b
  Steps-Consistent s t b (next {t = w} before step) =
      Step-Consistent w t (Steps-Consistent s w b before) step

  -- Whatever calls follow `init_cpu_states`, in any order: informs of online cpus and states that exist,
  -- changes of demands and runs of the logger, the books stay consistent, if no more cpus are online
  -- than NR_CPUS and one of them has a state.
  pub reachable-Consistent :
      (now : ℕ) (max_states : ℕ → ℕ) (registered : ℤ) (s t : Sys K.Mask) (i : ℕ)
      → s.total_online_cpus ≤ K.nr_cpus
      → i < s.total_online_cpus
      → 0 < max_states i
      → Steps K (init_cpu_states K now max_states registered s).0 t
      → Consistent K t
  reachable-Consistent now max_states registered s t i fits li has steps =
      Steps-Consistent (init_cpu_states K now max_states registered s).0 t
        (init-Consistent K now max_states registered s i fits li has).0 steps
