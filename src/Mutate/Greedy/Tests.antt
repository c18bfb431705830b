-- ===== src/Mutate/Greedy/Tests.antt =====
-- greedy_delta with two cpus in the lower of two states, and demand for the upper one.
use seeker_scheduler.Common.{
  ℕ, suc, ◌≤◌, ◌<◌, ◌≡◌, refl, true, false, ◌==◌, ◌&&◌, ltb, if◌then◌else◌, pos, ◌+ℤ◌, ◌-ℤ◌, ◌*ℤ◌,
  count_in, for_up, arith,
}
use seeker_scheduler.Kernel.{test_mask}
use seeker_scheduler.States.{Sys, seeker_cpufreq_inform, log_cpu_state}
use seeker_scheduler.Mutate.{ProcInfo, Env, awake_total}
use seeker_scheduler.Mutate.Greedy.{Auction, auction}
use seeker_scheduler.Mutate.Greedy.Budget.{Spent, auction-Spent}
use seeker_scheduler.Mutate.Greedy.Run.{fill_selected, provide, commit, carry_out, greedy_delta}
use seeker_scheduler.Mutate.Greedy.Run.Fill.{fill_selected_lem}
use seeker_scheduler.Mutate.Greedy.Run.Books.{seat, commit-provide}
use seeker_scheduler.Mutate.Greedy.Run.Switch.{target, commit-carry_out}

abbrev low_pair : Sys test_mask.Mask
low_pair = record {
  states = λ k. record {
    state = k;
    cpumask = λ c. k == 0 && ltb c 2;
    cpus = if k == 0 then pos 2 else pos 0;
    demand = if k == 1 then pos 4 else pos 0;
  };
  total_states = 2;
  cur_cpu_state = λ c. 0;
  max_state_possible = λ c. 2;
  total_online_cpus = 2;
  low_state = pos 0;
  high_state = pos 1;
  mid_state = pos 1;
  base_state = pos 0;
  init_layout = λ c. pos 0;
  init_layout_length = 2;
  current_jiffies = λ c. 0;
}

abbrev both_awake : ℕ → ProcInfo
both_awake c = record { sleep_time = 0; awake = 1; awake_time = 1 }

abbrev willing : Env
willing = record { now = 0; hz = 100; log_open = false; accepts = λ c k. true }

abbrev opening : Auction
opening = record {
  demand = λ k. if k == 1 then pos 2 else pos 0;
  selected_cpus = λ c. 1;
  new_cpu_state = λ c. 0;
  delta = pos 1;
  total_demand = pos 2;
  total_selected_cpus = 0;
  stopped = false;
}

auction-Spent_example :
    Spent 2 2 1 (λ c. 0) 2 (auction 2 2 2 (pos 4) (pos 1) (λ c. 0) (λ k. pos 0) opening)
auction-Spent_example =
    auction-Spent 2 2 2 (pos 4) (pos 1) (λ c. 0) (λ k. pos 0) 1 opening refl refl (λ c l. refl)
      (λ c l. refl) (λ c l. omega arith)

-- Nothing is selected by the auction, so both cpus are by the loop after it.
none_yet : count_in opening.selected_cpus 2 0 ≡ 0
unfolding count_in
none_yet = refl

two_ready : 2 ≤ count_in (λ c. (both_awake c).sleep_time) 2 0
unfolding count_in
two_ready = omega arith

fill_selected_lem_run :
    let a = fill_selected 2 2 both_awake opening in
    (count_in a.selected_cpus 2 0 ≡ 2)
    × (a.new_cpu_state ≡ opening.new_cpu_state)
    × ((c : ℕ) → c < 2 → opening.selected_cpus c ≡ 0 → a.selected_cpus c ≡ 0)
fill_selected_lem_run =
    fill_selected_lem 2 2 both_awake opening (λ c l. omega arith) none_yet (omega arith) two_ready

-- Both cpus go to state 1.
abbrev both_up : Auction
both_up = record opening { selected_cpus = λ c. 0; new_cpu_state = λ c. 1 }

commit-provide_example :
    let t = commit test_mask (provide test_mask 2 both_up).new_states low_pair in
    ((t.states 1).cpus ≡ pos (count_in (seat both_up) 2 2))
    × ((t.states 1).demand ≡ pos 0)
    × ((c : ℕ) → c < 64 → (t.states 1).cpumask c ≡ (ltb c 2 && seat both_up c == 2))
    × (t.cur_cpu_state ≡ low_pair.cur_cpu_state)
commit-provide_example = commit-provide test_mask both_up 2 low_pair 1 (omega arith) (omega arith)

commit-carry_out_example :
    let start = commit test_mask (provide test_mask 2 both_up).new_states low_pair in
    let t = (carry_out test_mask willing 2 both_up (start, both_awake)).0 in
    ((c : ℕ) → c < 2 → t.cur_cpu_state c ≡ target both_up both_awake low_pair.cur_cpu_state c)
    × ((k : ℕ)
        → k < 2
        → (t.states k).cpus
          ≡ pos (count_in (seat both_up) 2 (suc k))
            +ℤ pos (count_in (target both_up both_awake low_pair.cur_cpu_state) 2 k)
            -ℤ pos (count_in low_pair.cur_cpu_state 2 k))
commit-carry_out_example =
    commit-carry_out test_mask willing both_up (λ c k. refl) low_pair both_awake 2 (omega arith)

-- Of two cpus, state 1 then counts four.
four_of_two :
    ((greedy_delta test_mask willing
        (λ c. 1)
        (λ k. pos 0)
        (pos 2)
        (low_pair, both_awake, 0)).0.states
      1).cpus
    ≡ pos 4
unfolding greedy_delta for_up ◌+ℤ◌ ◌*ℤ◌ ◌-ℤ◌ awake_total seeker_cpufreq_inform log_cpu_state
four_of_two = refl
