-- ===== src/Search.antt =====
-- Module/seeker-scheduler/search_state.c: the search for a state that has a free cpu.
pub mod Scan
pub mod Lowest
pub mod Closest
pub mod Tests
use seeker_scheduler.Common.{
  ℕ, zero, suc, ◌+◌, ◌-◌, Bool, true, false, not, ◌&&◌, ◌||◌, ltb, ◌==◌, if◌then◌else◌, Option,
  none, some, ℤ, pos, negsuc, ◌-ℤ◌, ltb_ℤ, eqb_ℤ, for_up, pos_part, dist,
}
use seeker_scheduler.Kernel.{Cpumask}
use seeker_scheduler.States.{Sys}
use seeker_scheduler.Tasks.{get_state_tasks, get_state_tasks_exself}
use Scan.{first_down, first_up}

-- The variables of `lowest_loaded_state`: `min_load`, `min_state`, `min_found`.
pub record LowestSoFar : Type 0 where
  pub min_load : ℤ
  pub min_state : ℕ
  pub min_found : Bool

abbrev pub or_else : Option ℕ → ℤ → ℤ
or_else none d = d
or_else (some i) d = pos i

module _ (K : Cpumask) (running : ℕ → ℕ) (s : Sys K.Mask) where
  pub is_state_free : (old state : ℕ) → Bool
  is_state_free old state =
      let cpus = (s.states state).cpus in
      old == state
        && ltb_ℤ (pos 0) cpus
        && ltb_ℤ (pos (get_state_tasks_exself K running s state)) cpus
      || ltb_ℤ (pos 0) cpus && ltb_ℤ (pos (get_state_tasks K running s state)) cpus

  -- `this_load`
  pub load_of : ℕ → ℤ
  load_of i = pos (get_state_tasks K running s i) -ℤ (s.states i).cpus

  -- A round of the loop in `lowest_loaded_state`.
  pub lowest_round : ℕ → LowestSoFar → LowestSoFar
  lowest_round i b =
      if eqb_ℤ (s.states i).cpus (pos 0)
      then b
      else if not b.min_found || ltb_ℤ (load_of i) b.min_load
      then record { min_load = load_of i; min_state = i; min_found = true }
      else b

  pub lowest_loaded_state : ℤ
  unfolding lowest_round
  lowest_loaded_state =
      let b =
        for_up s.total_states lowest_round
          (record { min_load = pos 100000; min_state = 0; min_found = false }) in
      if b.min_found then pos b.min_state else negsuc 0

  pub search_state_down : (old_state req_state : ℕ) → ℤ
  search_state_down old_state req_state =
      or_else (first_down (is_state_free old_state) (suc req_state)) (
        or_else
          (first_up (is_state_free old_state) (suc req_state) (s.total_states - suc req_state))
          lowest_loaded_state)

  pub search_state_up : (old_state req_state : ℕ) → ℤ
  search_state_up old_state req_state =
      or_else (first_up (is_state_free old_state) req_state (s.total_states - req_state))
        (or_else (first_down (is_state_free old_state) req_state) lowest_loaded_state)

  pub search_state_closest : (old_state req_state : ℕ) → ℤ
  search_state_closest old_state req_state =
      let state1 = search_state_down old_state req_state in
      let state2 = search_state_up old_state req_state in
      if is_state_free old_state req_state
      then pos req_state
      else if eqb_ℤ state1 (negsuc 0) && eqb_ℤ state2 (negsuc 0)
      then lowest_loaded_state
      else if eqb_ℤ state1 (negsuc 0)
      then state2
      else if eqb_ℤ state2 (negsuc 0)
      then state1
      else if ltb (dist req_state (pos_part state1)) (dist req_state (pos_part state2))
      then state1
      else state2
