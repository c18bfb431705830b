-- ===== src/Search/Lowest.antt =====
-- What `lowest_loaded_state` returns.
use seeker_scheduler.Common.{
  ℕ, suc, ◌<◌, ◌≡◌, ◌≢◌, ◌⊎◌, inl, inr, true, false, Bool-cases, pos, negsuc, ◌≤ℤ◌, for_up,
  for_up_inv, ap, pos_part, neg_part, eq_of_parts, arith,
}
use seeker_scheduler.Kernel.{Cpumask}
use seeker_scheduler.States.{Sys}
use seeker_scheduler.Search.{is_state_free, LowestSoFar, load_of, lowest_round, lowest_loaded_state}

module _ (K : Cpumask) (running : ℕ → ℕ) (s : Sys K.Mask) where
  -- What the loop knows after `n` states.
  record Seen (n : ℕ) (b : LowestSoFar) : Type 0 where
    missing : b.min_found ≡ false → (j : ℕ) → j < n → (s.states j).cpus ≡ pos 0
    used : b.min_found ≡ true → (b.min_state < n) × ((s.states b.min_state).cpus ≢ pos 0)
    load : b.min_found ≡ true → b.min_load ≡ load_of K running s b.min_state
    least :
        b.min_found ≡ true
        → (j : ℕ) → j < n
        → (s.states j).cpus ≢ pos 0
        → b.min_load ≤ℤ load_of K running s j

  lowest_round-Seen :
      (n : ℕ) (b : LowestSoFar) → Seen n b → Seen (suc n) (lowest_round K running s n b)
  unfolding lowest_round
  lowest_round-Seen n b v = elim (Bool-cases b.min_found) [
    | inl found ↦ record {
      missing = λ e j l. ground (arith, eq_of_parts (s.states n).cpus (pos 0));
      used = λ e. ground (arith, v.used found, eq_of_parts (s.states n).cpus (pos 0));
      load = λ e. ground (arith, v.load found);
      least = λ e j l ne. ground (arith, v.least found j, eq_of_parts (s.states n).cpus (pos 0));
    }
    | inr fresh ↦ record {
      missing = λ e j l. ground (arith, v.missing fresh j, eq_of_parts (s.states n).cpus (pos 0));
      used = λ e. ground (arith, eq_of_parts (s.states n).cpus (pos 0));
      load = λ e. ground arith;
      least = λ e j l ne. ground (arith, v.missing fresh j, eq_of_parts (s.states n).cpus (pos 0));
    }
  ]

  -- `lowest_loaded_state` returns -1 if no state has a cpu. Otherwise it returns a state that has cpus
  -- and whose load, tasks less cpus, is the least among the states that have cpus.
  pub lowest_loaded_state_lem :
      ((lowest_loaded_state K running s ≡ negsuc 0)
        × ((j : ℕ) → j < s.total_states → (s.states j).cpus ≡ pos 0))
      ⊎ ((i : ℕ) × (lowest_loaded_state K running s ≡ pos i)
          × (i < s.total_states)
          × ((s.states i).cpus ≢ pos 0)
          × ((j : ℕ)
              → j < s.total_states
              → (s.states j).cpus ≢ pos 0
              → load_of K running s i ≤ℤ load_of K running s j))
  unfolding lowest_loaded_state
  lowest_loaded_state_lem =
      let start : LowestSoFar = record {
        min_load = pos 100000;
        min_state = 0;
        min_found = false;
      } in
      let b = for_up s.total_states (lowest_round K running s) start in
      let v =
        for_up_inv Seen s.total_states (lowest_round K running s) start
          (record {
            missing = λ e j l. absurd (omega arith);
            used = λ e. cc;
            load = λ e. cc;
            least = λ e j l. absurd (omega arith);
          })
          (λ n t l h. lowest_round-Seen n t h) in
      elim (Bool-cases b.min_found) [
        | inl found ↦ inr (
          b.min_state,
          rw found,
          (v.used found).0,
          (v.used found).1,
          λ j l ne.
              omega (
                arith,
                v.least found j l ne,
                ap pos_part (v.load found),
                ap neg_part (v.load found),
              ),
        )
        | inr fresh ↦ inl (rw fresh, v.missing fresh)
      ]

-- A free state has cpus.
pub free_has_cpus :
    (K : Cpumask) (running : ℕ → ℕ) (s : Sys K.Mask) (old i : ℕ)
    → is_state_free K running s old i ≡ true
    → 0 < pos_part (s.states i).cpus
unfolding is_state_free
free_has_cpus K running s old i h = ground (arith, h)
