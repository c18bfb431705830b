-- ===== src/Mutate/Demand.antt =====
-- Module/seeker-scheduler/mutate_gd.c: the demand for each state, and who serves the demand for a state
-- that no cpu can reach.
use seeker_scheduler.Common.{
  ℕ, suc, ◌+◌, ◌-◌, not, ◌&&◌, ◌||◌, ltb, if◌then◌else◌, ℤ, pos, negsuc, pos_part, ◌+ℤ◌, ◌-ℤ◌, ◌*ℤ◌,
  quot_ℤ, ltb_ℤ, eqb_ℤ, update, for_up,
}
use seeker_scheduler.Search.Scan.{first_down, first_up}
use seeker_scheduler.Search.{or_else}
use seeker_scheduler.Mutate.{ProcInfo}

-- 1 for up, -1 for down, 0 for balance.
unfoldable pub transition_direction :
    (total_states n : ℕ) → (demand : ℕ → ℤ) → (cur_cpu_state : ℕ → ℕ) → (ℕ → ProcInfo) → ℤ
transition_direction total_states n demand cur_cpu_state info =
    let req_level = for_up total_states (λ i t. t +ℤ demand i *ℤ pos (i + 1)) (pos 0) in
    let pre_level =
      for_up n (λ i t. if ltb 0 (info i).sleep_time then t else t + cur_cpu_state i + 1) 0 in
    if ltb_ℤ (pos pre_level) req_level
    then pos 1
    else if ltb_ℤ req_level (pos pre_level)
    then negsuc 0
    else pos 0

-- The macro `div`, which rounds to the nearest.
pub div : ℤ → ℤ → ℤ
div a b = if eqb_ℤ b (pos 0) then pos 0 else quot_ℤ (a *ℤ pos 2 +ℤ b) (b *ℤ pos 2)

unfoldable pub procs : (hints total total_load : ℤ) → ℤ
unfolding div
procs hints total total_load =
    if eqb_ℤ hints (pos 0)
    then pos 0
    else if eqb_ℤ hints total
    then total_load
    else let ans = div (hints *ℤ total_load) total in if ltb_ℤ ans (pos 0) then pos 0 else ans

pub get_left_distance : (state_weight : ℕ → ℤ) (pos' : ℕ) → ℤ
get_left_distance state_weight pos' =
    or_else (first_down (λ i. not (eqb_ℤ (state_weight i) (pos 0))) pos') (negsuc 0)

pub get_right_distance : (total_states : ℕ) (state_weight : ℕ → ℤ) (pos' : ℕ) → ℤ
get_right_distance total_states state_weight pos' =
    or_else
      (first_up (λ i. not (eqb_ℤ (state_weight i) (pos 0))) (suc pos') (total_states - suc pos'))
      (negsuc 0)

pub closest : (pos' left right : ℤ) → ℤ
closest pos' left right =
    if eqb_ℤ left (negsuc 0)
    then right
    else if eqb_ℤ right (negsuc 0)
    then left
    else if ltb_ℤ (right -ℤ pos') (pos' -ℤ left)
    then right
    else left

-- The variables of `update_demand_field`.
pub record DemandField : Type 0 where
  pub demand_field : ℕ → ℤ
  pub proxy_source : ℕ → ℕ
  pub friend : ℤ

-- `friend`, which stays as it was if `dir` is no direction.
pub choose_friend : (dir : ℤ) (pos' : ℕ) (left right friend : ℤ) → ℤ
unfolding closest
choose_friend dir pos' left right friend =
    if eqb_ℤ dir (pos 1)
    then if eqb_ℤ left (negsuc 0) then right else left
    else if eqb_ℤ dir (pos 0)
    then if eqb_ℤ left (negsuc 0)
      then right
      else if eqb_ℤ right (negsuc 0)
      then left
      else closest (pos pos') left right
    else if eqb_ℤ dir (negsuc 0)
    then if eqb_ℤ right (negsuc 0) then left else right
    else friend

pub demand_field_round :
    (total_states : ℕ) (dir : ℤ) (demand state_weight : ℕ → ℤ) → ℕ → DemandField → DemandField
unfolding get_left_distance get_right_distance choose_friend
demand_field_round total_states dir demand state_weight i d =
    let left = get_left_distance state_weight i in
    let right = get_right_distance total_states state_weight i in
    let friend = choose_friend dir i left right d.friend in
    let f = pos_part friend in
    if eqb_ℤ (d.demand_field i) (pos 0) || not (eqb_ℤ (state_weight i) (pos 0))
    then d
    else if eqb_ℤ left (negsuc 0) && eqb_ℤ right (negsuc 0)
    then d
    else if eqb_ℤ friend (negsuc 0)
    then record d { friend = friend }
    else record {
      demand_field = update (update d.demand_field f (d.demand_field f +ℤ demand i)) i (pos 0);
      proxy_source = update d.proxy_source f i;
      friend = friend;
    }

unfoldable pub update_demand_field :
    (total_states : ℕ) (dir : ℤ) (demand state_weight : ℕ → ℤ) → DemandField
unfolding demand_field_round
update_demand_field total_states dir demand state_weight =
    for_up total_states (demand_field_round total_states dir demand state_weight)
      (record { demand_field = demand; proxy_source = λ i. i; friend = negsuc 0 })
