-- ===== src/Cpufreq/Freq/Inform.antt =====
-- A change of frequency and those who are told of it.
use seeker_scheduler.Common.{
  ℕ, ◌-◌, ◌<◌, ◌≤◌, ◌≡◌, ◌≢◌, refl, ◌^◌, true, none, some, pos, negsuc, arith, eq_of_parts, ◌⊎◌,
  inl, inr,
}
use seeker_scheduler.Cpufreq.Users.{Users, inform_freq_change}
use seeker_scheduler.Cpufreq.Freq.{
  Freqs, Driver, unknown_freq, driver_answer, set_freq, inc_freq, dec_freq, get_freq, GovernorEvent,
  start, stop, limits, other, cpufreq_seeker_governor, set_info,
}

module _ {S : Type 0} (nr_cpus : ℕ) (driver : Driver) (us : Users S) (cpu freq_ind : ℕ) (f : Freqs)
    (σ : S) where
  -- A state that the cpu does not have, or a cpu without a governor, is refused: nothing changes.
  pub set_freq_refused :
      (nr_cpus ≤ cpu)
        ⊎ ((f.freq_info cpu).num_states ≤ freq_ind)
        ⊎ ((f.freq_info cpu).policy ≡ none)
      → set_freq nr_cpus driver us cpu freq_ind (f, σ) ≡ (f, σ, negsuc 0)
  unfolding set_freq
  set_freq_refused h = ground arith

  -- Otherwise the driver is asked for the frequency in the cpu's table. If it accepts, every user is
  -- told of the new state; if it does not, its error code is returned and nobody is told.
  pub set_freq_accepted :
      (p : ℕ)
      → cpu < nr_cpus
      → freq_ind < (f.freq_info cpu).num_states
      → (f.freq_info cpu).policy ≡ some p
      → let answer = driver_answer driver p ((f.freq_info cpu).table freq_ind) true in
        let (f', σ', ret) = set_freq nr_cpus driver us cpu freq_ind (f, σ) in
        (ret ≡ answer)
        × (f'.policy_cur p ≡ (f.freq_info cpu).table freq_ind)
        × (answer ≡ pos 0 → σ' ≡ inform_freq_change cpu freq_ind us σ)
        × (answer ≢ pos 0 → σ' ≡ σ)
  unfolding set_freq
  set_freq_accepted p a b e =
      let answer = driver_answer driver p ((f.freq_info cpu).table freq_ind) true in
      (
        ground (arith, eq_of_parts answer (pos 0)),
        ground (arith, eq_of_parts answer (pos 0)),
        (λ yes_it_did. ground (arith, eq_of_parts answer (pos 0))),
        (λ refused. ground (arith, eq_of_parts answer (pos 0))),
      )

  -- `set_freq` never records the new state: `get_freq` goes on answering what it did.
  pub get_freq-set_freq :
      (c : ℕ) → get_freq c (set_freq nr_cpus driver us cpu freq_ind (f, σ)).0 ≡ get_freq c f
  unfolding get_freq set_freq
  get_freq-set_freq c = ground arith

-- So `inc_freq`, from the initial unknown state, does not go one state up: it asks for state 0; and
-- `dec_freq` is refused.
pub inc_dec_unknown :
    {S : Type 0} (nr_cpus : ℕ) (driver : Driver) (us : Users S) (cpu : ℕ) (f : Freqs) (σ : S)
    → (f.freq_info cpu).cur_freq ≡ unknown_freq
    → 0 < (f.freq_info cpu).num_states
    → (f.freq_info cpu).num_states < 2 ^ 31
    → (inc_freq nr_cpus driver us cpu (f, σ) ≡ set_freq nr_cpus driver us cpu 0 (f, σ))
      × (dec_freq nr_cpus driver us cpu (f, σ) ≡ (f, σ, negsuc 0))
unfolding inc_freq dec_freq
inc_dec_unknown nr_cpus driver us cpu f σ e l u =
    let refused =
      set_freq_refused nr_cpus driver us cpu (2 ^ 32 - 2) f σ (inr (inl (omega arith))) in
    rw e (ground arith, ground (arith, refused))

-- A governor that starts makes its cpu's states settable under its policy, one that stops ends that;
-- both leave all other cpus alone, and other events everything.
pub governor_policy :
    (event : GovernorEvent) (cpu policy latency : ℕ) (f : Freqs)
    → let f' = cpufreq_seeker_governor event cpu policy latency f in
      (event ≡ start → (f'.freq_info cpu).policy ≡ some policy)
      × (event ≡ stop → (f'.freq_info cpu).policy ≡ none)
      × ((c : ℕ) → c ≢ cpu → f'.freq_info c ≡ f.freq_info c)
      × (event ≢ start → event ≢ stop → f' ≡ f)
unfolding cpufreq_seeker_governor set_info
governor_policy start cpu policy latency f =
    ((λ e. ground arith), (λ e. cc), (λ c ne. ground arith), (λ a b. absurd (a refl)))
governor_policy stop cpu policy latency f =
    ((λ e. cc), (λ e. ground arith), (λ c ne. ground arith), (λ a b. absurd (b refl)))
governor_policy limits cpu policy latency f = ((λ e. cc), (λ e. cc), (λ c ne. refl), (λ a b. refl))
governor_policy other cpu policy latency f = ((λ e. cc), (λ e. cc), (λ c ne. refl), (λ a b. refl))
