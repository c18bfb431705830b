-- ===== src/Cpufreq/Tables.antt =====
-- Module/seeker-cpufreq/freq.c: the frequency table of each cpu, read from the kernel's, sorted, and
-- cut down to the states that the user allows.
pub mod Sort
pub mod Prune
use seeker_scheduler.Common.{
  ℕ, zero, suc, ◌+◌, ◌-◌, ◌%◌, ◌^◌, Bool, true, false, Option, none, some, List, [], ◌∷◌, ltb, leb,
  ◌==◌, if◌then◌else◌, ℤ, pos, pos_part, ltb_ℤ, leb_ℤ, update, for_up,
}
use seeker_scheduler.Cpufreq.Freq.{FreqInfo, unknown_freq}

abbrev pub max_states : ℕ
max_states = 8

-- Two neighbours that are out of order change places.
unfoldable pub sort_step : ℕ → (ℕ → ℕ) → ℕ → ℕ
sort_step j table =
    if leb (table j) (table (suc j))
    then table
    else update (update table j (table (suc j))) (suc j) (table j)

unfoldable pub sort_pass : (len : ℕ) → (ℕ → ℕ) → ℕ → ℕ
unfolding sort_step
sort_pass len table = for_up (len - 1) sort_step table

unfoldable pub sort_table : (len : ℕ) → (ℕ → ℕ) → ℕ → ℕ
unfolding sort_pass
sort_table len table = for_up (len - 1) (λ i t. sort_pass len t) table

-- `allowed_states[i]`, cut to the states there are.
pub clamp_allowed : (num_states : ℕ) → ℤ → ℤ
clamp_allowed num_states a =
    if ltb_ℤ a (pos 0) then pos 0 else if leb_ℤ (pos num_states) a then pos (num_states - 1) else a

-- The first loop of `prune_states`: allowed states are cut to the range, and marked 2.
pub mark_allowed : (num_states : ℕ) → (ℕ → ℤ) × (ℕ → ℕ) → (ℕ → ℤ) × (ℕ → ℕ)
unfolding clamp_allowed
mark_allowed num_states av =
    for_up num_states
      (λ i (allowed, valid).
        let a = clamp_allowed num_states (allowed i) in
        (update allowed i a, update valid (pos_part a) 2))
      av

-- The inner loop: the cells from `i` on move down by one. The last cell stays.
unfoldable pub shift_down : (i : ℕ) → (ℕ → ℕ) → ℕ → ℕ
shift_down i a = for_up (max_states - 1 - i) (λ k b. update b (i + k) (b (suc (i + k)))) a

-- What the second loop works on: `valid`, `table` and `num_states`.
pub record Pruning : Type 0 where
  pub valid : ℕ → ℕ
  pub table : ℕ → ℕ
  pub num_states : ℕ

-- A round that removes entry `i`; `i--` and the loop's `i++` cancel.
unfoldable pub remove_entry : ℕ → Pruning → Pruning
unfolding shift_down
remove_entry i p = record {
  valid = shift_down i p.valid;
  table = shift_down i p.table;
  num_states = (p.num_states + 2 ^ 32 - 1) % 2 ^ 32;
}

-- The second loop of `prune_states`, from `i`; `none` when the fuel has run out.
pub prune_from : (fuel allowed_length i : ℕ) → Pruning → Option Pruning
prune_from zero allowed_length i p = none
prune_from (suc fuel) allowed_length i p = elim (ltb i allowed_length) [
  | false ↦ some p
  | true ↦ elim (p.valid i == 2) [
    | true ↦ prune_from fuel allowed_length (suc i) p
    | false ↦ prune_from fuel allowed_length i (remove_entry i p)
  ]
]

pub prune_states : (fuel allowed_length : ℕ) → (ℕ → ℤ) → FreqInfo → Option ((ℕ → ℤ) × FreqInfo)
unfolding mark_allowed prune_from
prune_states fuel allowed_length allowed info =
    let (allowed', marked) = mark_allowed info.num_states (allowed, info.valid_entry) in
    elim (prune_from fuel allowed_length 0
      (record { valid = marked; table = info.table; num_states = info.num_states })) [
        | none ↦ none
        | some p ↦ some (
          allowed',
          record info { valid_entry = p.valid; table = p.table; num_states = p.num_states },
        )
      ]

-- The kernel's table up to its end mark; `none` is an entry that is marked invalid.
unfoldable pub read_table : List (Option ℕ) → FreqInfo → FreqInfo
read_table [] info = info
read_table (none ∷ rest) info = read_table rest info
read_table (some freq ∷ rest) info =
    let n = info.num_states in
    let more = read_table rest (record info {
      table = update info.table n freq;
      valid_entry = update info.valid_entry n 1;
      num_states = suc n;
    }) in
    if leb max_states n then info else more

-- A cpu's turn in `init_freqs`: `allowed_states_length` and `allowed_states` are shared by all cpus.
pub init_freq :
    (fuel cpu : ℕ) → List (Option ℕ) → ℕ × (ℕ → ℤ) × FreqInfo → Option (ℕ × (ℕ → ℤ) × FreqInfo)
unfolding read_table sort_table prune_states
init_freq fuel cpu kernel_table (allowed_length, allowed, info) =
    let read =
      read_table kernel_table
        (record info { cpu = cpu; cur_freq = unknown_freq; num_states = 0 }) in
    let n = read.num_states in
    let cleared = for_up (max_states - n) (λ k v. update v (n + k) 0) read.valid_entry in
    let sorted = record read { valid_entry = cleared; table = sort_table n read.table } in
    let length' = (if ltb n allowed_length then n else allowed_length) in
    if ltb 0 length'
    then elim (prune_states fuel length' allowed sorted) [
      | none ↦ none
      | some (allowed', pruned) ↦ some (length', allowed', pruned)
    ]
    else some (length', allowed, sorted)
