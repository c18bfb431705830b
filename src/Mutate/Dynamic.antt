-- ===== src/Mutate/Dynamic.antt =====
-- Module/seeker-scheduler/mutate_dyn.c: the demand that is handed to the states in reach, and the
-- dynamic program that gives each awake cpu a state.
pub mod Table
pub mod Optimal
pub mod Transform
pub mod Handed
pub mod Run
mod Tests
use seeker_scheduler.Common.{
  ℕ, zero, suc, ◌+◌, ◌-◌, Bool, true, false, not, ◌&&◌, ◌||◌, Option, none, some, ltb, leb, ◌==◌,
  if◌then◌else◌, ℤ, pos, negsuc, pos_part, ◌+ℤ◌, ltb_ℤ, leb_ℤ, eqb_ℤ, update, for_up, dist,
}
use seeker_scheduler.Search.Scan.{first_down, first_up}

-- A state that one of the cpus reaches with the delta.
pub can_win : (cpus delta : ℕ) (cur_cpu_state cpu_awake_proxy : ℕ → ℕ) → ℕ → Bool
can_win cpus delta cur_cpu_state cpu_awake_proxy j =
    for_up cpus (λ i found. found || leb (dist (cur_cpu_state (cpu_awake_proxy i)) j) delta) false

-- The state that gets the demand of `j`; `left` and `right` are the winning states next to it.
pub choose_neighbour : (demand : ℕ → ℤ) (j : ℕ) → Option ℕ → Option ℕ → Option ℕ
choose_neighbour demand j none right = right
choose_neighbour demand j (some left) none = some left
choose_neighbour demand j (some left) (some right) = some (
    if dist left j == dist right j
    then if ltb_ℤ (demand right) (demand left) then left else right
    else if ltb (dist left j) (dist right j)
    then left
    else right)

-- If no state can win, the code adds the demand to the cell before the array, which no code reads.
pub hand_over : Option ℕ → ℤ → (ℕ → ℤ) → ℕ → ℤ
hand_over none d demand = demand
hand_over (some friend) d demand = update demand friend (demand friend +ℤ d)

pub transform_round : (total_states : ℕ) (wins : ℕ → Bool) → ℕ → (ℕ → ℤ) → ℕ → ℤ
unfolding choose_neighbour hand_over
transform_round total_states wins j demand =
    if wins j || eqb_ℤ (demand j) (pos 0)
    then demand
    else hand_over
        (choose_neighbour demand j (first_down wins (suc j)) (first_up wins j (total_states - j)))
        (demand j) demand

pub delta_based_demand_transform :
    (total_states cpus delta : ℕ) (cur_cpu_state cpu_awake_proxy : ℕ → ℕ) → (ℕ → ℤ) → ℕ → ℤ
unfolding can_win transform_round
delta_based_demand_transform total_states cpus delta cur_cpu_state cpu_awake_proxy demand =
    for_up total_states
      (transform_round total_states (can_win cpus delta cur_cpu_state cpu_awake_proxy)) demand

-- struct struct_f
pub record Cell : Type 0 where
  pub f : ℤ
  pub sol : ℤ

abbrev pub Row : Type 0
Row = ℕ → Cell

-- The variables max and ind.
pub record Choice : Type 0 where
  pub max : ℤ
  pub ind : ℤ

abbrev pub no_choice : Choice
no_choice = record { max = negsuc 0; ind = negsuc 0 }

-- The demand of each state, how many states there are, and the weights of a cpu's moves.
module _ (demand : ℕ → ℤ) (m : ℕ) (wt : ℕ → ℕ) where
  pub first_pick_round : (b : ℕ) → ℕ → Choice → Choice
  first_pick_round b j c =
      if leb (wt j) b && ltb_ℤ c.max (demand j) then record { max = demand j; ind = pos j } else c

  pub first_cell : ℕ → Row → Row
  unfolding first_pick_round
  first_cell b row =
      let c = for_up m (first_pick_round b) no_choice in
      update row b (record {
        f = if not (b == 0) && ltb_ℤ c.max (row (b - 1)).f then (row (b - 1)).f else c.max;
        sol = if ltb_ℤ (pos 0) c.max then c.ind else (row b).sol;
      })

  pub pick_round : Row → (b : ℕ) → ℕ → Choice → Choice
  pick_round before b j c =
      let demand1 = (if leb (wt j) b then (before (b - wt j)).f else pos 0) in
      let demand2 = demand1 +ℤ demand j in
      if leb (wt j) b && ltb_ℤ (pos 0) demand1 && ltb_ℤ c.max demand2
      then record { max = demand2; ind = pos j }
      else c

  pub next_cell : Row → ℕ → Row → Row
  unfolding pick_round
  next_cell before b row =
      let c = for_up m (pick_round before b) no_choice in
      if not (b == 0) && ltb_ℤ c.max (row (b - 1)).f
      then update row b (record (row b) { f = (row (b - 1)).f })
      else if ltb_ℤ (pos 0) c.max
      then update row b (record { f = c.max; sol = c.ind })
      else row

abbrev pub blank : Row
blank b = record { f = pos 0; sol = negsuc 0 }

module _ (demand : ℕ → ℤ) (m w : ℕ) (wt : ℕ → ℕ → ℕ) where
  -- The rows of `dyna`.
  pub dyna : ℕ → Row
  unfolding first_cell next_cell
  dyna zero = blank
  dyna (suc zero) = for_up (suc w) (first_cell demand m (wt 0)) blank
  dyna (suc (suc k)) =
      let before = dyna (suc k) in for_up (suc w) (next_cell demand m (wt (suc k)) before) blank

  -- The loop that reads the table, with the cpus that are left; `cells` is one more than `b`.
  pub backtrack : (cpu_awake_proxy : ℕ → ℕ) (k cells : ℕ) → (ℕ → ℕ) → ℕ → ℕ
  unfolding dyna
  backtrack cpu_awake_proxy zero cells new_cpu_state = new_cpu_state
  backtrack cpu_awake_proxy (suc k) cells new_cpu_state =
      elim (first_down (λ b. leb_ℤ (pos 0) (dyna (suc k) b).sol) cells) [
        | none ↦ backtrack cpu_awake_proxy k 0 new_cpu_state
        | some b ↦
            let sol = pos_part (dyna (suc k) b).sol in
            backtrack cpu_awake_proxy k (suc b - wt k sol)
              (update new_cpu_state (cpu_awake_proxy k) sol)
      ]

abbrev pub weight : (cur_cpu_state cpu_awake_proxy : ℕ → ℕ) → ℕ → ℕ → ℕ
weight cur_cpu_state cpu_awake_proxy i j = dist j (cur_cpu_state (cpu_awake_proxy i))

pub mck :
    (n m w : ℕ) (demand : ℕ → ℤ) (cur_cpu_state cpu_awake_proxy : ℕ → ℕ)
    → (new_cpu_state : ℕ → ℕ) → ℕ
    → ℕ
unfolding backtrack
mck n m w demand cur_cpu_state cpu_awake_proxy new_cpu_state =
    backtrack demand m w (weight cur_cpu_state cpu_awake_proxy) cpu_awake_proxy n (suc w)
      new_cpu_state
