-- ===== src/MapIpc/Tests.antt =====
-- map_ipc.c with three states, and the searches' example machine.
use seeker_scheduler.Common.{
  ℕ, suc, ◌<◌, ◌≡◌, refl, inl, inr, true, false, ltb, if◌then◌else◌, pos, negsuc, ◌-ℤ◌, ◌≤ℤ◌, ◌<ℤ◌,
  [], ◌∷◌, some, arith,
}
use seeker_scheduler.Kernel.{test_mask}
use seeker_scheduler.Search.{is_state_free}
use seeker_scheduler.Search.Tests.{three_cpus, some_room, state_0_free}
use seeker_scheduler.MapIpc.{
  Choice, ladder_req, adaptive_req, select_req, evaluate_ipc, ipc_high, ipc_low,
  adaptive_ladder_scheduling,
}
use seeker_scheduler.MapIpc.Ladder.{
  ladder_req_lem, adaptive_req_bounds, steps_after, steps_after_high, adaptive_req_turn,
}
use seeker_scheduler.MapIpc.Select.{select_req_lem}
use seeker_scheduler.MapIpc.Evaluate.{evaluate_ipc-Finds}

evaluate_ipc-Finds_example :
    (c : Choice) × (evaluate_ipc test_mask some_room three_cpus adaptive_ladder_scheduling false
        (pos 7)
        2
        (pos 1)
        (pos 0)
      ≡ (some c, false))
    × ((i : ℕ) × (c.new_state ≡ pos i)
        × (i < 3)
        × (is_state_free test_mask some_room three_cpus 2 i ≡ true))
    × (pos 0 ≤ℤ c.state_req)
    × (c.state_req <ℤ pos 3)
unfolding ◌-ℤ◌
evaluate_ipc-Finds_example =
    evaluate_ipc-Finds test_mask some_room three_cpus 2 0 (omega arith) (omega arith) state_0_free
      adaptive_ladder_scheduling false (pos 7) (pos 1) (pos 0) (inr refl) (omega arith)
      (omega arith) (omega arith)

ladder_req_lem_run :
    (r : ℕ) × (ladder_req 3 (pos 7) 1 ≡ pos r)
    × (r < 3)
    × (ipc_high ≤ℤ pos 7 → 2 < 3 → r ≡ 2)
    × (ipc_high ≤ℤ pos 7 → suc 1 ≡ 3 → r ≡ 1)
    × (pos 7 ≤ℤ ipc_low → r ≡ 0)
    × (ipc_low <ℤ pos 7 → pos 7 <ℤ ipc_high → r ≡ 1)
ladder_req_lem_run = ladder_req_lem 3 (pos 7) 1 (omega arith)

adaptive_req_bounds_run :
    let (req, step) = adaptive_req 3 (pos 2) 1 (negsuc 1) in
    (pos 0 ≤ℤ req) × (req <ℤ pos 3) × (pos 0 -ℤ pos 3 ≤ℤ step) × (step <ℤ pos 3)
unfolding ◌-ℤ◌
adaptive_req_bounds_run =
    adaptive_req_bounds 3 (pos 2) 1 (negsuc 1) (omega arith) (omega arith) (omega arith)
      (omega arith)

steps_after_high_run : steps_after 5 0 (pos 1) (pos 6 ∷ pos 8 ∷ []) ≡ pos 3
steps_after_high_run =
    steps_after_high 5 0 1 (pos 6 ∷ pos 8 ∷ []) (omega arith) (omega arith)
      (omega arith, (omega arith, tt))

turns_round : adaptive_req 3 (pos 1) 2 (pos 2) ≡ (pos 2, pos 0)
turns_round = adaptive_req_turn 3 2 (pos 1) (pos 2) (inl (omega arith, omega arith))

select_req_lem_example : select_req 3 (pos 3) (pos 0) ≡ some (if ltb 3 4 then pos 5 else pos 2)
select_req_lem_example = select_req_lem 3 3 (pos 0) (omega arith) (omega arith)

-- A task with a middling IPC, of three states, asks for state 5.
select_middling : select_req 3 (pos 3) (pos 0) ≡ some (pos 5)
select_middling = select_req_lem 3 3 (pos 0) (omega arith) (omega arith)
