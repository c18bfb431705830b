-- ===== src/States/Init/Frames.antt =====
-- What the first steps of `init_cpu_states` set and what they leave alone.
use seeker_scheduler.Common.{ℕ, ◌≤◌, ◌<◌, ◌≡◌, refl, pos, for_up_inv, arith}
use seeker_scheduler.Kernel.{Cpumask}
use seeker_scheduler.States.{Sys}
use seeker_scheduler.States.Init.{read_max_states, default_layout, clear_states}

module _ {M : Type 0} where
  pub read_max_states_frame :
      (f : ℕ → ℕ) (s : Sys M)
      → let t = read_max_states f s in
        (t.total_online_cpus ≡ s.total_online_cpus)
        × (t.base_state ≡ s.base_state)
        × ((i : ℕ) → i < s.total_online_cpus → f i ≤ t.total_states)
        × ((i : ℕ) → i < s.total_online_cpus → t.max_state_possible i ≡ f i)
  unfolding read_max_states
  read_max_states_frame f s =
      for_up_inv
        (λ n t.
          (t.total_online_cpus ≡ s.total_online_cpus)
          × (t.base_state ≡ s.base_state)
          × ((i : ℕ) → i < n → f i ≤ t.total_states)
          × ((i : ℕ) → i < n → t.max_state_possible i ≡ f i))
        s.total_online_cpus _ s
        (refl, refl, (λ i l. absurd (omega arith)), (λ i l. absurd (omega arith)))
        (λ n t l h. (h.0, h.1, (λ i m. ground (arith, h.2 i)), (λ i m. ground (arith, h.3 i))))

  pub default_layout_frame :
      (s : Sys M)
      → let t = default_layout s in
        (t.total_online_cpus ≡ s.total_online_cpus)
        × (t.total_states ≡ s.total_states)
        × (t.states ≡ s.states)
        × (t.init_layout_length ≤ t.total_online_cpus)
  unfolding default_layout
  default_layout_frame s = ground arith

module _ (K : Cpumask) where
  pub clear_states_frame :
      (s : Sys K.Mask)
      → s.total_online_cpus ≤ K.nr_cpus
      → let t = clear_states K s in
        (t.total_online_cpus ≡ s.total_online_cpus)
        × (t.total_states ≡ s.total_states)
        × ((k : ℕ)
            → k < s.total_states
            → t.states k ≡ record { state = k; cpumask = K.none; cpus = pos 0; demand = pos 0 })
  unfolding clear_states
  clear_states_frame s fits =
      for_up_inv
        (λ n t.
          (t.total_online_cpus ≡ s.total_online_cpus)
          × (t.total_states ≡ s.total_states)
          × ((k : ℕ)
              → k < n
              → t.states k ≡ record { state = k; cpumask = K.none; cpus = pos 0; demand = pos 0 }))
        s.total_states _ s (refl, refl, (λ i l. absurd (omega arith)))
        (λ n t l h. (h.0, h.1, (λ i m. ground (arith, h.2 i))))
