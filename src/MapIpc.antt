-- ===== src/MapIpc.antt =====
-- Module/seeker-scheduler/map_ipc.c: which state a task asks for, given its instructions per cycle
-- (an IPC of 8 stands for 1.0). An out parameter is part of the result.
pub mod Ladder
pub mod Select
pub mod Evaluate
mod Tests
use seeker_scheduler.Common.{
  ℕ, zero, suc, ◌+◌, ◌-◌, Bool, true, false, not, ◌&&◌, Option, none, some, ◌==◌, if◌then◌else◌, ℤ,
  pos, negsuc, pos_part, ◌+ℤ◌, ◌-ℤ◌, ltb_ℤ, leb_ℤ, eqb_ℤ,
}
use seeker_scheduler.Kernel.{Cpumask}
use seeker_scheduler.States.{Sys}
use seeker_scheduler.Search.{search_state_down, search_state_up, search_state_closest}

abbrev pub ipc_high : ℤ
ipc_high = pos 6

abbrev pub ipc_low : ℤ
ipc_low = pos 4

-- The macros of saturating arithmetic: exclusive limits above, inclusive limits below.
abbrev pub sat_inc : (state ex_limit : ℤ) → ℤ
sat_inc state ex_limit =
    if ltb_ℤ state (ex_limit -ℤ pos 1) then state +ℤ pos 1 else ex_limit -ℤ pos 1

abbrev pub sat_dec : (state inc_limit : ℤ) → ℤ
sat_dec state inc_limit = if ltb_ℤ inc_limit state then state -ℤ pos 1 else inc_limit

abbrev pub sat_sum : (a b inc_low ex_high : ℤ) → ℤ
sat_sum a b inc_low ex_high =
    if leb_ℤ ex_high (a +ℤ b)
    then ex_high -ℤ pos 1
    else if ltb_ℤ (a +ℤ b) inc_low
    then inc_low
    else a +ℤ b

-- `min_states`, an array of MAX_STATES = 8 cells. Past it nothing is known: `none`.
abbrev pub min_states : ℕ → Option ℕ
min_states zero = some 0
min_states (suc zero) = some 2
min_states (suc (suc zero)) = some 4
min_states (suc (suc (suc zero))) = some 6
min_states (suc (suc (suc (suc zero)))) = some 9
min_states (suc (suc (suc (suc (suc zero))))) = some 0
min_states (suc (suc (suc (suc (suc (suc zero)))))) = some 0
min_states (suc (suc (suc (suc (suc (suc (suc zero))))))) = some 0
min_states other = none

-- What an evaluation returns, and writes through its pointers.
pub record Choice : Type 0 where
  pub new_state : ℤ
  pub state_req : ℤ
  pub step : ℤ

-- `ladder_evaluation`, the state that is asked for.
pub ladder_req : (total : ℕ) (ipc : ℤ) (cur_state : ℕ) → ℤ
ladder_req total ipc cur_state =
    if leb_ℤ ipc_high ipc
    then sat_inc (pos cur_state) (pos total)
    else if leb_ℤ ipc ipc_low
    then sat_dec (pos cur_state) (pos 0)
    else pos cur_state

-- `adaptive_ladder_evaluation`, the state that is asked for and the next step.
pub adaptive_req : (total : ℕ) (ipc : ℤ) (cur_state : ℕ) (step : ℤ) → ℤ × ℤ
adaptive_req total ipc cur_state step =
    if leb_ℤ ipc_high ipc
    then if ltb_ℤ (pos 0) step
      then (sat_sum (pos cur_state) step (pos 0) (pos total), sat_inc step (pos total))
      else if eqb_ℤ step (pos 0)
      then (pos cur_state, pos 1)
      else (pos cur_state, pos 0)
    else if leb_ℤ ipc ipc_low
    then if ltb_ℤ step (pos 0)
      then (sat_sum (pos cur_state) step (pos 0) (pos total), sat_dec step (pos 0 -ℤ pos total))
      else if eqb_ℤ step (pos 0)
      then (pos cur_state, negsuc 0)
      else (pos cur_state, pos 0)
    else (pos cur_state, pos 0)

-- The loop of `select_evaluation`, which counts up from `i`. `none`: it reads past the array.
-- No more than 9 rounds stay within or one past the array.
pub select_from : (rounds : ℕ) (ipc : ℤ) (i : ℕ) → Option ℕ
select_from zero ipc i = none
select_from (suc rounds) ipc i = elim (min_states i) [
  | none ↦ none
  | some m ↦ if leb_ℤ (pos m) ipc then some i else select_from rounds ipc (suc i)
]

-- With no states, `i` starts at -1 and the loop ends at once: `*state_req` stays as it was.
pub select_req : (total : ℕ) (ipc state_req : ℤ) → Option ℤ
unfolding select_from
select_req zero ipc state_req = some state_req
select_req (suc n) ipc state_req = elim (select_from 9 ipc n) [
  | none ↦ none
  | some i ↦ some (pos i)
]

abbrev pub ladder_scheduling : ℕ
ladder_scheduling = 0

abbrev pub select_scheduling : ℕ
select_scheduling = 1

abbrev pub adaptive_ladder_scheduling : ℕ
adaptive_ladder_scheduling = 2

module _ (K : Cpumask) (running : ℕ → ℕ) (s : Sys K.Mask) where
  pub ladder_evaluation : (ipc : ℤ) (cur_state : ℕ) (step : ℤ) → Choice
  unfolding ladder_req
  ladder_evaluation ipc cur_state step =
      let req = ladder_req s.total_states ipc cur_state in
      record {
        new_state =
            if leb_ℤ ipc_high ipc
            then search_state_up K running s cur_state (pos_part req)
            else if leb_ℤ ipc ipc_low
            then search_state_down K running s cur_state (pos_part req)
            else search_state_closest K running s cur_state (pos_part req);
        state_req = req;
        step = step;
      }

  pub adaptive_ladder_evaluation : (ipc : ℤ) (cur_state : ℕ) (step : ℤ) → Choice
  unfolding adaptive_req
  adaptive_ladder_evaluation ipc cur_state step =
      let (req, step') = adaptive_req s.total_states ipc cur_state step in
      record {
        new_state =
            if leb_ℤ ipc_high ipc && ltb_ℤ (pos 0) step
            then search_state_up K running s cur_state (pos_part req)
            else if not (leb_ℤ ipc_high ipc) && leb_ℤ ipc ipc_low && ltb_ℤ step (pos 0)
            then search_state_down K running s cur_state (pos_part req)
            else search_state_closest K running s cur_state (pos_part req);
        state_req = req;
        step = step';
      }

  pub select_evaluation : (ipc : ℤ) (cur_state : ℕ) (step state_req : ℤ) → Option Choice
  unfolding select_req
  select_evaluation ipc cur_state step state_req = elim (select_req s.total_states ipc state_req) [
    | none ↦ none
    | some req ↦ some (record {
      new_state = search_state_closest K running s cur_state (pos_part req);
      state_req = req;
      step = step;
    })
  ]

  -- `evaluate_ipc`; beside the choice, the new value of `error_thrown`.
  pub evaluate_ipc :
      (scheduling_method : ℕ) (error_thrown : Bool) (ipc : ℤ) (cur_state : ℕ) (step state_req : ℤ)
      → Option Choice × Bool
  unfolding ladder_evaluation adaptive_ladder_evaluation select_evaluation
  evaluate_ipc scheduling_method error_thrown ipc cur_state step state_req =
      if scheduling_method == ladder_scheduling
      then (some (ladder_evaluation ipc cur_state step), error_thrown)
      else if scheduling_method == adaptive_ladder_scheduling
      then (some (adaptive_ladder_evaluation ipc cur_state step), error_thrown)
      else if scheduling_method == select_scheduling
      then (select_evaluation ipc cur_state step state_req, error_thrown)
      else (some (record { new_state = pos cur_state; state_req = state_req; step = step }), true)
