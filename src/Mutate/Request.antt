-- ===== src/Mutate/Request.antt =====
-- The mutators' calls of `set_freq`, against the model of seeker-cpufreq.
use seeker_scheduler.Common.{ℕ, ◌≡◌, [], ◌∷◌, some, ℤ, pos, eqb_ℤ, arith, refl}
use seeker_scheduler.Kernel.{Cpumask}
use seeker_scheduler.States.{Sys, seeker_cpufreq_inform}
use seeker_scheduler.Mutate.{Env, request_freq}
use seeker_scheduler.Cpufreq.Users.{Users, inform_freq_change}
use seeker_scheduler.Cpufreq.Freq.{Freqs, Driver, set_freq}

module _ (K : Cpumask) (env : Env) where
  -- seeker_scheduler_user.inform
  abbrev pub scheduler_inform : ℕ → ℕ → Sys K.Mask → Sys K.Mask × ℤ
  scheduler_inform cpu state s =
      ((seeker_cpufreq_inform K env.now env.hz env.log_open cpu state s).0, pos 0)

  inform_one :
      (us : Users (Sys K.Mask)) (u cpu state : ℕ) (s : Sys K.Mask)
      → us.user_head ≡ u ∷ []
      → (us.user u).inform ≡ some scheduler_inform
      → inform_freq_change cpu state us s
        ≡ (seeker_cpufreq_inform K env.now env.hz env.log_open cpu state s).0
  unfolding inform_freq_change
  inform_one us u cpu state s e f = rw (e, f) refl

  -- When the scheduler is the only registered user, a call of `set_freq` in seeker-cpufreq acts on the
  -- scheduler's state as the mutators' models take it to: the books change as the callback changes
  -- them if the call succeeds, and not at all if it fails.
  pub set_freq-request_freq :
      (nr_cpus : ℕ) (driver : Driver) (us : Users (Sys K.Mask)) (u cpu state : ℕ) (f : Freqs)
      (s : Sys K.Mask)
      → us.user_head ≡ u ∷ []
      → (us.user u).inform ≡ some scheduler_inform
      → env.accepts cpu state ≡ eqb_ℤ (set_freq nr_cpus driver us cpu state (f, s)).2 (pos 0)
      → (set_freq nr_cpus driver us cpu state (f, s)).1 ≡ request_freq K env cpu state s
  unfolding set_freq request_freq
  set_freq-request_freq nr_cpus driver us u cpu state f s e g h =
      ground (arith, h, inform_one us u cpu state s e g)
