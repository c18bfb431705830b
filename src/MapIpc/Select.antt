-- ===== src/MapIpc/Select.antt =====
-- The selection by thresholds.
use seeker_scheduler.Common.{ℕ, zero, suc, ◌-◌, ◌≤◌, ◌≡◌, ℤ, pos, ltb, if◌then◌else◌, arith, some}
use seeker_scheduler.MapIpc.{select_req, select_from}

-- The top state's threshold, for two to five states.
abbrev pub top_threshold : ℕ → ℕ
top_threshold (suc (suc zero)) = 2
top_threshold (suc (suc (suc zero))) = 4
top_threshold (suc (suc (suc (suc zero)))) = 6
top_threshold (suc (suc (suc (suc (suc zero))))) = 9
top_threshold other = 0

-- With two to five states, a task whose IPC reaches the top state's threshold asks for the top state.
-- A task with any lower IPC asks for state 5, which does not exist; none asks for another state.
pub select_req_lem :
    (total : ℕ) (ipc : ℕ) (state_req : ℤ)
    → 2 ≤ total
    → total ≤ 5
    → select_req total (pos ipc) state_req
      ≡ some (if ltb ipc (top_threshold total) then pos 5 else pos (total - 1))
unfolding select_req select_from
select_req_lem zero ipc r l u = absurd (omega arith)
select_req_lem (suc zero) ipc r l u = absurd (omega arith)
select_req_lem (suc (suc zero)) ipc r l u = ground arith
select_req_lem (suc (suc (suc zero))) ipc r l u = ground arith
select_req_lem (suc (suc (suc (suc zero)))) ipc r l u = ground arith
select_req_lem (suc (suc (suc (suc (suc zero))))) ipc r l u = ground arith
select_req_lem (suc (suc (suc (suc (suc (suc n)))))) ipc r l u = absurd (omega arith)
