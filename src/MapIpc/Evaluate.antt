-- ===== src/MapIpc/Evaluate.antt =====
-- Where a task is sent: the evaluations end in the searches of search_state.c.
use seeker_scheduler.Common.{
  ℕ, ◌<◌, ◌≡◌, ◌⊎◌, inl, inr, Bool, true, false, ℤ, pos, pos_part, ◌≤ℤ◌, ◌<ℤ◌, leb_ℤ, ltb_ℤ,
  if◌then◌else◌, arith, some, pos_part-lt, neg_part, ap, ◌-ℤ◌, not, ◌&&◌,
}
use seeker_scheduler.Kernel.{Cpumask}
use seeker_scheduler.States.{Sys}
use seeker_scheduler.Search.{
  is_state_free, search_state_up, search_state_down, search_state_closest,
}
use seeker_scheduler.Search.Closest.{
  search_state_down_finds, search_state_up_finds, search_state_closest_nearest,
}
use seeker_scheduler.MapIpc.{
  Choice, ladder_evaluation, adaptive_ladder_evaluation, evaluate_ipc, ladder_scheduling,
  adaptive_ladder_scheduling, adaptive_req, ladder_req, ipc_high, ipc_low,
}
use seeker_scheduler.MapIpc.Ladder.{ladder_req_lem, adaptive_req_bounds}

module _ (K : Cpumask) (running : ℕ → ℕ) (s : Sys K.Mask) (cur k : ℕ) (valid : cur < s.total_states)
    (free_k : k < s.total_states) (is_free : is_state_free K running s cur k ≡ true) where
  abbrev pub Finds : ℤ → Type 0
  Finds r = (i : ℕ) × (r ≡ pos i) × (i < s.total_states) × (is_state_free K running s cur i ≡ true)

  -- Whichever search is chosen, it finds a free state.
  route :
      (a b : Bool) (req : ℕ)
      → req < s.total_states
      → Finds (
          if a
          then search_state_up K running s cur req
          else if b
          then search_state_down K running s cur req
          else search_state_closest K running s cur req)
  route true b req h = search_state_up_finds K running s cur req h k free_k is_free
  route false true req h = search_state_down_finds K running s cur req h k free_k is_free
  route false false req h =
      let n = search_state_closest_nearest K running s cur req h k free_k is_free in
      (n.0, n.1, n.2, n.3)

  ladder_evaluation-Finds :
      (ipc step : ℤ) → Finds (ladder_evaluation K running s ipc cur step).new_state
  unfolding ladder_evaluation
  ladder_evaluation-Finds ipc step =
      let r = ladder_req_lem s.total_states ipc cur valid in
      route (leb_ℤ ipc_high ipc) (leb_ℤ ipc ipc_low) (pos_part (ladder_req s.total_states ipc cur))
        (omega (arith, r.2, ap pos_part r.1))

  adaptive_ladder_evaluation-Finds :
      (ipc step : ℤ)
      → 1 < s.total_states
      → pos 0 -ℤ pos s.total_states ≤ℤ step
      → step <ℤ pos s.total_states
      → Finds (adaptive_ladder_evaluation K running s ipc cur step).new_state
  unfolding adaptive_ladder_evaluation
  adaptive_ladder_evaluation-Finds ipc step m l u =
      let b = adaptive_req_bounds s.total_states ipc cur step valid m l u in
      route (leb_ℤ ipc_high ipc && ltb_ℤ (pos 0) step)
        (not (leb_ℤ ipc_high ipc) && leb_ℤ ipc ipc_low && ltb_ℤ step (pos 0))
        (pos_part (adaptive_req s.total_states ipc cur step).0) (pos_part-lt _ _ b.0 b.1)

  -- With two states or more, a task in a state that exists, and its step between -total and total - 1:
  -- under the ladder and the adaptive ladder the task is sent to a free state whenever there is one,
  -- and asks for a state that exists.
  pub evaluate_ipc-Finds :
      (scheduling_method : ℕ) (error_thrown : Bool) (ipc step state_req : ℤ)
      → (scheduling_method ≡ ladder_scheduling) ⊎ (scheduling_method ≡ adaptive_ladder_scheduling)
      → 1 < s.total_states
      → pos 0 -ℤ pos s.total_states ≤ℤ step
      → step <ℤ pos s.total_states
      → (c : Choice) × (evaluate_ipc K running s scheduling_method error_thrown ipc cur step
            state_req
          ≡ (some c, error_thrown))
        × Finds c.new_state
        × (pos 0 ≤ℤ c.state_req)
        × (c.state_req <ℤ pos s.total_states)
  unfolding evaluate_ipc
  evaluate_ipc-Finds m et ipc step state_req (inl e) more l u =
      let r = ladder_req_lem s.total_states ipc cur valid in
      (
        ladder_evaluation K running s ipc cur step,
        rw e,
        ladder_evaluation-Finds ipc step,
        omega (arith, r.2, ap pos_part r.1, ap neg_part r.1),
        omega (arith, r.2, ap pos_part r.1, ap neg_part r.1),
      )
  evaluate_ipc-Finds m et ipc step state_req (inr e) more l u =
      let b = adaptive_req_bounds s.total_states ipc cur step valid more l u in
      (
        adaptive_ladder_evaluation K running s ipc cur step,
        rw e,
        adaptive_ladder_evaluation-Finds ipc step more l u,
        b.0,
        b.1,
      )
