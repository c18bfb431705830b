-- ===== src/MapIpc/Ladder.antt =====
-- The two ladders.
use seeker_scheduler.Common.{
  ℕ, zero, suc, ◌+◌, ◌-◌, ◌<◌, ◌≡◌, ◌⊎◌, inl, inr, Bool-cases, ℤ, pos, pos_part, ◌-ℤ◌, ◌+ℤ◌, ◌≤ℤ◌,
  ◌<ℤ◌, List, [], ◌∷◌, length, min, ltb, ap, arith,
}
use seeker_scheduler.MapIpc.{ladder_req, adaptive_req, ipc_high, ipc_low}

-- The ladder asks for an existing state at most one away: the next one up for a high IPC unless the
-- task is at the top, the next one down for a low IPC unless it is at the bottom, the same otherwise.
pub ladder_req_lem :
    (total : ℕ) (ipc : ℤ) (cur : ℕ)
    → cur < total
    → (r : ℕ) × (ladder_req total ipc cur ≡ pos r)
      × (r < total)
      × (ipc_high ≤ℤ ipc → suc cur < total → r ≡ suc cur)
      × (ipc_high ≤ℤ ipc → suc cur ≡ total → r ≡ cur)
      × (ipc ≤ℤ ipc_low → r ≡ cur - 1)
      × (ipc_low <ℤ ipc → ipc <ℤ ipc_high → r ≡ cur)
unfolding ladder_req ◌+ℤ◌ ◌-ℤ◌
ladder_req_lem total ipc cur h = (
  pos_part (ladder_req total ipc cur),
  ground arith,
  ground arith,
  (λ a b. ground arith),
  (λ a b. ground arith),
  (λ a. ground arith),
  (λ a b. ground arith),
)

-- The adaptive ladder keeps its step between -total and total - 1 and asks for existing states only.
pub adaptive_req_bounds :
    (total : ℕ) (ipc : ℤ) (cur : ℕ) (step : ℤ)
    → cur < total
    → 1 < total
    → pos 0 -ℤ pos total ≤ℤ step
    → step <ℤ pos total
    → let (req, step') = adaptive_req total ipc cur step in
      (pos 0 ≤ℤ req) × (req <ℤ pos total) × (pos 0 -ℤ pos total ≤ℤ step') × (step' <ℤ pos total)
unfolding adaptive_req ◌+ℤ◌ ◌-ℤ◌
adaptive_req_bounds total ipc cur step h m l u = ground arith

-- The step after a history of IPC values. (It does not depend on the state.)
pub steps_after : (total cur : ℕ) → ℤ → List ℤ → ℤ
steps_after total cur step [] = step
steps_after total cur step (ipc ∷ rest) =
    steps_after total cur (adaptive_req total ipc cur step).1 rest

abbrev pub AllHigh : List ℤ → Type 0
AllHigh [] = Unit {0}
AllHigh (ipc ∷ rest) = (ipc_high ≤ℤ ipc) × AllHigh rest

-- From a step of `k`, a run of high IPC values raises the step by one each, up to `total - 1`: the
-- longer the run, the further the task moves at once.
pub steps_after_high :
    (total cur k : ℕ) (run : List ℤ)
    → 1 < total
    → k < total
    → AllHigh run
    → steps_after total cur (pos k) run ≡ pos (min (k + length run) (total - 1))
unfolding steps_after adaptive_req ◌+ℤ◌ ◌-ℤ◌
steps_after_high total cur k [] m l h = ap pos (omega arith)
steps_after_high total cur zero (ipc ∷ rest) m l (h, hs) =
    ground (arith, steps_after_high total cur 1 rest)
steps_after_high total cur (suc k) (ipc ∷ rest) m l (h, hs) =
    elim (Bool-cases (ltb (suc (suc k)) total)) [
      | inl room ↦ ground (arith, steps_after_high total cur (suc (suc k)) rest)
      | inr top ↦ ground (arith, steps_after_high total cur (suc k) rest)
    ]

-- A task that turns round waits first: a low IPC after a positive step, or a high one after a negative
-- step, sets the step to 0 and asks for the state that the task is in.
pub adaptive_req_turn :
    (total cur : ℕ) (ipc step : ℤ)
    → ((ipc ≤ℤ ipc_low) × (pos 0 <ℤ step)) ⊎ ((ipc_high ≤ℤ ipc) × (step <ℤ pos 0))
    → adaptive_req total ipc cur step ≡ (pos cur, pos 0)
unfolding adaptive_req
adaptive_req_turn total cur ipc step (inl (a, b)) = ground arith
adaptive_req_turn total cur ipc step (inr (a, b)) = ground arith
