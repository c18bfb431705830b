-- ===== src/Cpufreq/Tests.antt =====
-- seeker-cpufreq with two users and one cpu.
use seeker_scheduler.Common.{
  ◌<◌, ℕ, ◌+◌, ◌≤◌, ◌≡◌, ◌≢◌, refl, inl, inr, true, List, [], ◌∷◌, ◌++◌, ◌==◌, ltb, if◌then◌else◌,
  ℤ, pos, negsuc, none, some, count_in, arith,
}
use seeker_scheduler.Cpufreq.Users.{
  Users, has_inform, inform_freq_change, register_scpufreq_user, deregister_scpufreq_user,
}
use seeker_scheduler.Common.{false}
use seeker_scheduler.Cpufreq.Users.{err_user_mem_low}
use seeker_scheduler.Cpufreq.Users.Registry.{Valid, register_deregister, deregister_stranger}
use seeker_scheduler.Cpufreq.Freq.{
  Freqs, Driver, unknown_freq, driver_answer, set_freq, inc_freq, dec_freq, get_freq, start, stop,
  cpufreq_seeker_governor,
}
use seeker_scheduler.Cpufreq.Freq.Inform.{
  set_freq_refused, set_freq_accepted, get_freq-set_freq, inc_dec_unknown, governor_policy,
}
use seeker_scheduler.Cpufreq.Tables.{sort_table, Pruning, prune_from}
use seeker_scheduler.Cpufreq.Tables.Sort.{sort_table_lem}
use seeker_scheduler.Cpufreq.Tables.Prune.{
  prune_from_lem, prune_from_never_ends, prune_from_prefix, PrunesTo, marks,
}

-- A user who writes down whom and what it was told.
abbrev told : ℕ → ℕ → List (ℕ × ℕ) → List (ℕ × ℕ) × ℤ
told cpu state seen = (seen ++ (cpu, state) ∷ [], pos 0)

abbrev one_user : Users (List (ℕ × ℕ))
one_user = record {
  user_head = 10 ∷ [];
  user = λ u. record { inform = some told; user_id = 0 };
  current_highest_id = 1;
}

one_user-Valid : Valid one_user
one_user-Valid = record { below = (omega arith, tt); distinct = (tt, tt) }

has_told : has_inform (one_user.user 11) ≡ true
unfolding has_inform
has_told = refl

register_deregister_example :
    let (us, code) = register_scpufreq_user true (some 11) one_user in
    (code ≡ pos 0)
    × (us.user_head ≡ (10 ∷ []) ++ 11 ∷ [])
    × Valid us
    × ((deregister_scpufreq_user (some 11) us).0.user_head ≡ 10 ∷ [])
    × ((deregister_scpufreq_user (some 11) us).1 ≡ pos 0)
register_deregister_example =
    register_deregister one_user 11 has_told ((λ e. absurd (omega (arith, e))), tt) (omega arith)
      one_user-Valid

-- User 11 is refused, and the id in its structure is that of user 10, which goes.
deregister_stranger_example :
    let (failed, code) = register_scpufreq_user false (some 11) one_user in
    (code ≡ err_user_mem_low)
    × (failed ≡ one_user)
    × ((deregister_scpufreq_user (some 11) failed).0.user_head ≡ [] ++ [])
    × ((deregister_scpufreq_user (some 11) failed).1 ≡ pos 0)
deregister_stranger_example =
    deregister_stranger one_user 11 10 [] [] has_told ((λ e. absurd (omega (arith, e))), tt) refl tt
      refl

abbrev pub two_states : Freqs
two_states = record {
  freq_info = λ c. record {
    cpu = c;
    cur_freq = unknown_freq;
    num_states = 2;
    table = λ i. if i == 0 then 800 else 1600;
    valid_entry = λ i. 1;
    latency = 10;
    policy = some c;
  };
  policy_cur = λ p. 0;
}

-- The driver is busy at first.
abbrev busy_once : Driver
busy_once second policy frequency locking = if second then pos 0 else negsuc 10

set_freq_refused_run :
    set_freq 1 busy_once one_user 0 2 (two_states, []) ≡ (two_states, [], negsuc 0)
set_freq_refused_run =
    set_freq_refused 1 busy_once one_user 0 2 two_states [] (inr (inl (omega arith)))

set_freq_accepted_run :
    let answer = driver_answer busy_once 0 1600 true in
    let (f, seen, ret) = set_freq 1 busy_once one_user 0 1 (two_states, []) in
    (ret ≡ answer)
    × (f.policy_cur 0 ≡ 1600)
    × (answer ≡ pos 0 → seen ≡ inform_freq_change 0 1 one_user [])
    × (answer ≢ pos 0 → seen ≡ [])
set_freq_accepted_run =
    set_freq_accepted 1 busy_once one_user 0 1 two_states [] 0 (omega arith) (omega arith) refl

get_freq-set_freq_run :
    get_freq 0 (set_freq 1 busy_once one_user 0 1 (two_states, [])).0 ≡ get_freq 0 two_states
get_freq-set_freq_run = get_freq-set_freq 1 busy_once one_user 0 1 two_states [] 0

inc_dec_unknown_run :
    (inc_freq 1 busy_once one_user 0 (two_states, [])
      ≡ set_freq 1 busy_once one_user 0 0 (two_states, []))
    × (dec_freq 1 busy_once one_user 0 (two_states, []) ≡ (two_states, [], negsuc 0))
inc_dec_unknown_run =
    inc_dec_unknown 1 busy_once one_user 0 two_states [] refl (omega arith) (omega arith)

governor_policy_run :
    let f = cpufreq_seeker_governor stop 0 0 10 two_states in
    (stop ≡ start → (f.freq_info 0).policy ≡ some 0)
    × (stop ≡ stop → (f.freq_info 0).policy ≡ none)
    × ((c : ℕ) → c ≢ 0 → f.freq_info c ≡ two_states.freq_info c)
    × (stop ≢ start → stop ≢ stop → f ≡ two_states)
governor_policy_run = governor_policy stop 0 0 10 two_states

-- Three frequencies, as a driver may list them.
abbrev unsorted : ℕ → ℕ
unsorted i = if i == 0 then 1600 else if i == 1 then 800 else 1200

sort_table_lem_example :
    ((i j : ℕ) → i ≤ j → j < 3 → sort_table 3 unsorted i ≤ sort_table 3 unsorted j)
    × ((v : ℕ) → count_in (sort_table 3 unsorted) 3 v ≡ count_in unsorted 3 v)
sort_table_lem_example = sort_table_lem 3 unsorted

-- Of four states the second and the fourth are allowed.
abbrev two_of_four : Pruning
two_of_four = record {
  valid = λ i. if i == 1 then 2 else if i == 3 then 2 else if ltb i 4 then 1 else 0;
  table = λ i. 100 + i;
  num_states = 4;
}

two_of_four_marks : marks two_of_four.valid 0 8 ≡ 2
unfolding marks
two_of_four_marks = refl

prune_from_lem_example :
    (r : Pruning) × (prune_from 9 2 0 two_of_four ≡ some r) × PrunesTo 8 2 0 two_of_four r
prune_from_lem_example =
    prune_from_lem 9 8 2 0 two_of_four (omega arith) (omega (arith, two_of_four_marks))
      (omega arith)

-- The user gave three entries, one of them twice.
prune_from_never_ends_example : prune_from 1000 3 0 two_of_four ≡ none
prune_from_never_ends_example =
    prune_from_never_ends 1000 7 3 0 two_of_four refl
      ((λ e. absurd (omega (arith, e))), omega (arith, two_of_four_marks))

-- Of four states the first two are allowed; all four stay.
abbrev first_two : Pruning
first_two = record two_of_four { valid = λ i. if ltb i 2 then 2 else 1 }

all_four_stay : prune_from 3 2 0 first_two ≡ some first_two
all_four_stay = prune_from_prefix 2 2 0 first_two (omega arith) (λ j h. ground arith)
