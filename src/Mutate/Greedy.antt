-- ===== src/Mutate/Greedy.antt =====
-- Module/seeker-scheduler/mutate_gd.c: the auction of the greedy delta mutator. An array that a
-- function fills before it is read is the function's result.
pub mod Round
pub mod Budget
pub mod Run
mod Tests
use seeker_scheduler.Mutate.Demand.{update_demand_field}
use seeker_scheduler.Common.{
  ℕ, zero, suc, ◌+◌, ◌-◌, ◌*◌, ◌/◌, Bool, true, false, not, ◌&&◌, ◌||◌, Option, none, some, ltb,
  leb, ◌==◌, if◌then◌else◌, ℤ, pos, negsuc, pos_part, ◌+ℤ◌, ◌-ℤ◌, ◌*ℤ◌, quot_ℤ, ltb_ℤ, leb_ℤ, eqb_ℤ,
  update, for_up, dist,
}
use seeker_scheduler.Search.Scan.{first_down, first_up}
use seeker_scheduler.Search.{or_else}
use seeker_scheduler.Mutate.{ProcInfo}

-- MIN_REQUESTS
abbrev pub min_requests : ℕ
min_requests = 4

-- A cell of the state matrix, in the row of a cpu in `state`.
pub matrix_cell : (total_states : ℕ) (delta direction : ℤ) (state j : ℕ) → ℤ
matrix_cell total_states delta direction state j =
    let square = direction *ℤ direction in
    let left = pos (pos_part ((square -ℤ direction +ℤ pos 2) *ℤ pos total_states) / 2) in
    let right = pos (pos_part ((square +ℤ direction +ℤ pos 2) *ℤ pos total_states) / 2) in
    if ltb_ℤ (pos j) (pos state -ℤ delta)
    then pos 0
    else if ltb j state
    then left +ℤ pos j -ℤ pos state
    else if j == state
    then pos (total_states * 2)
    else if leb_ℤ (pos j) (pos state +ℤ delta)
    then right +ℤ pos state -ℤ pos j
    else pos 0

abbrev pub Matrix : Type 0
Matrix = ℕ → ℕ → ℤ

pub update_state_matrix : (total_states : ℕ) (delta direction : ℤ) (new_cpu_state : ℕ → ℕ) → Matrix
unfolding matrix_cell
update_state_matrix total_states delta direction new_cpu_state i j =
    matrix_cell total_states delta direction (new_cpu_state i) j

pub update_state_weight : (n : ℕ) → Matrix → ℕ → ℤ
update_state_weight n state_matrix j = for_up n (λ i t. t +ℤ state_matrix i j) (pos 0)

-- The highest value of a column among the cpus that are not selected, and its cpu.
pub record Best : Type 0 where
  pub max_val : ℤ
  pub max : ℤ

pub winning_round : (selected_cpus : ℕ → ℕ) → Matrix → (j i : ℕ) → Best → Best
winning_round selected_cpus state_matrix j i b =
    let val = pos (selected_cpus i) *ℤ state_matrix i j in
    if ltb_ℤ b.max_val val then record { max_val = val; max = pos i } else b

pub update_winning_procs : (n : ℕ) (selected_cpus : ℕ → ℕ) → Matrix → ℕ → ℤ
unfolding winning_round
update_winning_procs n selected_cpus state_matrix j =
    (for_up n (winning_round selected_cpus state_matrix j)
      (record { max_val = pos 0; max = negsuc 0 })).max

-- The variables of `get_winning_state`.
pub record Winner : Type 0 where
  pub max_weight : ℤ
  pub max_proc : ℤ
  pub max : ℤ

-- With no winning cpu for a state, -1, the code reads the row before the matrix: `before` stands for
-- what is there.
pub winner_round :
    (before : ℕ → ℤ)
    → Matrix
    → (state_weight demand_field winning_procs : ℕ → ℤ) → ℕ
    → Winner
    → Winner
winner_round before state_matrix state_weight demand_field winning_procs j w =
    let weight = state_weight j *ℤ demand_field j in
    let cell =
      (if eqb_ℤ (winning_procs j) (negsuc 0)
        then before j
        else state_matrix (pos_part (winning_procs j)) j) in
    if ltb_ℤ w.max_weight weight || (eqb_ℤ weight w.max_weight && ltb_ℤ w.max_proc cell)
    then record { max_weight = weight; max_proc = cell; max = pos j }
    else w

pub get_winning_state :
    (total_states : ℕ) (before : ℕ → ℤ)
    → Matrix
    → (state_weight demand_field winning_procs : ℕ → ℤ) → ℤ
unfolding winner_round
get_winning_state total_states before state_matrix state_weight demand_field winning_procs =
    (for_up total_states (winner_round before state_matrix state_weight demand_field winning_procs)
      (record { max_weight = pos 0; max_proc = pos 0; max = negsuc 0 })).max

-- The auction's variables; `stopped` is set by its `break`s.
pub record Auction : Type 0 where
  pub demand : ℕ → ℤ
  pub selected_cpus : ℕ → ℕ
  pub new_cpu_state : ℕ → ℕ
  pub delta : ℤ
  pub total_demand : ℤ
  pub total_selected_cpus : ℕ
  pub stopped : Bool

-- `total` is the sum of all hints.
module _ (total_states n load : ℕ) (total direction : ℤ) (cur_cpu_state : ℕ → ℕ)
    (before : ℕ → ℤ) where
  -- A cpu is given to a state.
  pub award : (winner winner_proc : ℕ) (proxy_source : ℕ → ℕ) → Auction → Auction
  award winner winner_proc proxy_source a =
      let source = proxy_source winner in
      record {
        demand = update a.demand source (a.demand source -ℤ pos 1);
        selected_cpus = update a.selected_cpus winner_proc 0;
        new_cpu_state = update a.new_cpu_state winner_proc winner;
        delta = a.delta -ℤ pos (dist (cur_cpu_state winner_proc) winner);
        total_demand = a.total_demand -ℤ pos 1;
        total_selected_cpus = suc a.total_selected_cpus;
        stopped = false;
      }

  -- The conditions on which the loop is left.
  pub ends : (winner winner_proc : ℤ) → Auction → Bool
  ends winner winner_proc a =
      ltb_ℤ total (pos min_requests)
      || load == 0
      || leb_ℤ a.delta (pos 0)
      || leb_ℤ a.total_demand (pos 0)
      || (ltb_ℤ winner (pos 0) || leb_ℤ (pos total_states) winner)
      || (ltb_ℤ winner_proc (pos 0) || leb_ℤ (pos n) winner_proc)

  -- A round of the auction's loop.
  pub auction_round : Auction → Auction
  unfolding award ends update_state_matrix update_state_weight update_winning_procs
      update_demand_field get_winning_state
  auction_round a =
      let m = update_state_matrix total_states a.delta direction a.new_cpu_state in
      let weight = update_state_weight n m in
      let winning = update_winning_procs n a.selected_cpus m in
      let field = update_demand_field total_states direction a.demand weight in
      let winner = get_winning_state total_states before m weight field.demand_field winning in
      let winner_proc = winning (pos_part winner) in
      if a.stopped
      then a
      else if ends winner winner_proc a
      then record a { stopped = true }
      else award (pos_part winner) (pos_part winner_proc) field.proxy_source a

  pub auction : Auction → Auction
  unfolding auction_round
  auction a = for_up load (λ i. auction_round) a
