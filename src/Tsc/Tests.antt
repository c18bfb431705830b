-- ===== src/Tsc/Tests.antt =====
-- Two cpus, the first of which goes round 64 bits.
use seeker_scheduler.Common.{ℕ, ◌+◌, ◌-◌, ◌^◌, ◌≡◌, refl, List, [], ◌∷◌, arith}
use seeker_scheduler.Tsc.{Call, get_tsc_cycles, charged, last_call, Paced, charged_lem}

abbrev start : ℕ → ℕ
start c = 2 ^ 64 - 10

abbrev calls : List Call
calls = (0, 2 ^ 64 + 5) ∷ (1, 2 ^ 64) ∷ (0, 2 ^ 64 + 7) ∷ []

calls-Paced : Paced calls start
unfolding Paced
calls-Paced =
    (omega arith, omega arith, (omega arith, omega arith, (omega arith, omega arith, omega arith)))

charged_lem_example : start 0 + charged 0 calls start ≡ last_call calls start 0
charged_lem_example = charged_lem 0 calls start start (λ c. refl) calls-Paced

cycles_of_first : charged 0 calls start ≡ 17
unfolding charged get_tsc_cycles
cycles_of_first = refl
