-- ===== src/Search/Tests.antt =====
-- search_state.c with three states: state 0 has two cpus, state 1 has one, state 2 has none.
use seeker_scheduler.Common.{
  ℕ, suc, ◌≤◌, ◌<◌, ◌≡◌, ◌≢◌, ◌⊎◌, refl, true, ◌==◌, ◌&&◌, ◌||◌, zero, ltb, if◌then◌else◌, pos,
  negsuc, ◌≤ℤ◌, dist, for_up, arith,
}
use seeker_scheduler.Kernel.{test_mask}
use seeker_scheduler.States.{Sys}
use seeker_scheduler.States.Tests.{pair_of_cpus}
use seeker_scheduler.Tasks.{get_state_tasks, get_state_tasks_exself}
use seeker_scheduler.Search.{
  is_state_free, load_of, lowest_loaded_state, search_state_down, search_state_up,
  search_state_closest,
}
use seeker_scheduler.Search.Scan.{Misses}
use seeker_scheduler.Search.Lowest.{lowest_loaded_state_lem}
use seeker_scheduler.Search.Closest.{
  search_state_down_cases, search_state_up_cases, search_state_closest_nearest,
  search_state_closest_none_free,
}

abbrev pub three_cpus : Sys test_mask.Mask
three_cpus = record {
  states = λ i. record {
    state = i;
    cpumask = λ c. i == 0 && ltb c 2 || i == 1 && c == 2;
    cpus = if i == 0 then pos 2 else if i == 1 then pos 1 else pos 0;
    demand = pos 0;
  };
  total_states = 3;
  cur_cpu_state = λ c. if c == 2 then 1 else 0;
  max_state_possible = λ i. 3;
  total_online_cpus = 3;
  low_state = pos 0;
  high_state = pos 2;
  mid_state = pos 1;
  base_state = pos 0;
  init_layout = λ i. pos 0;
  init_layout_length = 3;
  current_jiffies = λ i. 0;
}

-- Cpu 0 runs one task and cpu 2 runs two.
abbrev pub some_room : ℕ → ℕ
some_room c = if c == 0 then 1 else if c == 2 then 2 else 0

-- Every cpu runs two tasks.
abbrev pub no_room : ℕ → ℕ
no_room c = 2

pub state_0_free : is_state_free test_mask some_room three_cpus 2 0 ≡ true
unfolding is_state_free for_up get_state_tasks
state_0_free = refl

search_state_closest_nearest_example :
    (i : ℕ) × (search_state_closest test_mask some_room three_cpus 2 2 ≡ pos i)
    × (i < 3)
    × (is_state_free test_mask some_room three_cpus 2 i ≡ true)
    × ((j : ℕ)
        → j < 3
        → is_state_free test_mask some_room three_cpus 2 j ≡ true
        → dist 2 i ≤ dist 2 j)
search_state_closest_nearest_example =
    search_state_closest_nearest test_mask some_room three_cpus 2 2 (omega arith) 0 (omega arith)
      state_0_free

nothing_free : Misses (is_state_free test_mask no_room three_cpus 0) 0 3
unfolding is_state_free for_up get_state_tasks_exself
nothing_free zero z h = refl
nothing_free (suc zero) z h = refl
nothing_free (suc (suc zero)) z h = refl
nothing_free (suc (suc (suc n))) z h = absurd (omega arith)

search_state_closest_none_free_run :
    search_state_closest test_mask no_room three_cpus 0 1
    ≡ lowest_loaded_state test_mask no_room three_cpus
search_state_closest_none_free_run =
    search_state_closest_none_free test_mask no_room three_cpus 0 1 (omega arith) nothing_free

search_state_down_cases_run :
    let free = is_state_free test_mask some_room three_cpus 0 in
    let down = search_state_down test_mask some_room three_cpus 0 2 in
    ((i : ℕ) × (down ≡ pos i) × (i ≤ 2) × (free i ≡ true) × Misses free (suc i) 3)
    ⊎ ((i : ℕ) × (down ≡ pos i) × (2 < i) × (i < 3) × (free i ≡ true) × Misses free 0 i)
    ⊎ ((down ≡ lowest_loaded_state test_mask some_room three_cpus) × Misses free 0 3)
search_state_down_cases_run =
    search_state_down_cases test_mask some_room three_cpus 0 2 (omega arith)

search_state_up_cases_run :
    let free = is_state_free test_mask some_room three_cpus 0 in
    let up = search_state_up test_mask some_room three_cpus 0 1 in
    ((i : ℕ) × (up ≡ pos i) × (1 ≤ i) × (i < 3) × (free i ≡ true) × Misses free 1 i)
    ⊎ ((i : ℕ) × (up ≡ pos i) × (i < 1) × (free i ≡ true) × Misses free (suc i) 3)
    ⊎ ((up ≡ lowest_loaded_state test_mask some_room three_cpus) × Misses free 0 3)
search_state_up_cases_run = search_state_up_cases test_mask some_room three_cpus 0 1 (omega arith)

lowest_loaded_state_lem_example :
    ((lowest_loaded_state test_mask no_room three_cpus ≡ negsuc 0)
      × ((j : ℕ) → j < 3 → (three_cpus.states j).cpus ≡ pos 0))
    ⊎ ((i : ℕ) × (lowest_loaded_state test_mask no_room three_cpus ≡ pos i)
        × (i < 3)
        × ((three_cpus.states i).cpus ≢ pos 0)
        × ((j : ℕ)
            → j < 3
            → (three_cpus.states j).cpus ≢ pos 0
            → load_of test_mask no_room three_cpus i ≤ℤ load_of test_mask no_room three_cpus j))
lowest_loaded_state_lem_example = lowest_loaded_state_lem test_mask no_room three_cpus

-- Without any task state 0 of two idle cpus is free.
pub pair_free : is_state_free test_mask (λ c. 0) pair_of_cpus 0 0 ≡ true
unfolding is_state_free for_up get_state_tasks_exself
pair_free = refl
