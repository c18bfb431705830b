-- ===== src/Search/Closest.antt =====
-- What the searches for a free state return, for a requested state that exists.
use seeker_scheduler.Common.{
  ℕ, suc, ◌-◌, ◌≤◌, ◌<◌, ◌≡◌, ◌⊎◌, inl, inr, Bool, true, Bool-cases, ℤ, pos, dist, arith, leb, ltb,
}
use seeker_scheduler.Kernel.{Cpumask}
use seeker_scheduler.States.{Sys}
use seeker_scheduler.Search.{
  is_state_free, lowest_loaded_state, search_state_down, search_state_up, search_state_closest,
}
use seeker_scheduler.Search.Scan.{Misses, first_down_cases, first_up_cases}

module _ (K : Cpumask) (running : ℕ → ℕ) (s : Sys K.Mask) (old req : ℕ)
    (valid : req < s.total_states) where
  abbrev free : ℕ → Bool
  free = is_state_free K running s old

  abbrev down : ℤ
  down = search_state_down K running s old req

  abbrev up : ℤ
  up = search_state_up K running s old req

  -- `search_state_down`, for a state `req` that exists, returns the highest free state up to `req`; or else the lowest free state above it;
  -- or else, when no state is free, the state with the least load.
  pub search_state_down_cases :
      ((i : ℕ) × (down ≡ pos i) × (i ≤ req) × (free i ≡ true) × Misses free (suc i) (suc req))
      ⊎ ((i : ℕ) × (down ≡ pos i)
          × (req < i)
          × (i < s.total_states)
          × (free i ≡ true)
          × Misses free 0 i)
      ⊎ ((down ≡ lowest_loaded_state K running s) × Misses free 0 s.total_states)
  unfolding search_state_down
  search_state_down_cases = elim (first_down_cases free (suc req)) [
    | inr (i, e, l, t, m) ↦ inl (i, rw e, omega arith, t, m)
    | inl (e, m) ↦ elim (first_up_cases free (suc req) (s.total_states - suc req)) [
      | inr (i, e', g, l, t, m') ↦ inr (
          inl (
            i,
            rw (e, e'),
            g,
            omega arith,
            t,
            λ j z h. elim (Bool-cases (leb j req)) [
              | inl a ↦ m j z (ground arith)
              | inr a ↦ m' j (ground arith) h
            ],
          ))
      | inl (e', m') ↦ inr (
          inr (
            rw (e, e'),
            λ j z h. elim (Bool-cases (leb j req)) [
              | inl a ↦ m j z (ground arith)
              | inr a ↦ m' j (ground arith) (omega arith)
            ],
          ))
    ]
  ]

  -- `search_state_up`, for a state `req` that exists, returns the lowest free state from `req` on; or else the highest free state below it; or
  -- else, when no state is free, the state with the least load.
  pub search_state_up_cases :
      ((i : ℕ) × (up ≡ pos i)
        × (req ≤ i)
        × (i < s.total_states)
        × (free i ≡ true)
        × Misses free req i)
      ⊎ ((i : ℕ) × (up ≡ pos i) × (i < req) × (free i ≡ true) × Misses free (suc i) s.total_states)
      ⊎ ((up ≡ lowest_loaded_state K running s) × Misses free 0 s.total_states)
  unfolding search_state_up
  search_state_up_cases = elim (first_up_cases free req (s.total_states - req)) [
    | inr (i, e, g, l, t, m) ↦ inl (i, rw e, g, omega arith, t, m)
    | inl (e, m) ↦ elim (first_down_cases free req) [
      | inr (i, e', l, t, m') ↦ inr (
          inl (
            i,
            rw (e, e'),
            l,
            t,
            λ j z h. elim (Bool-cases (ltb j req)) [
              | inl a ↦ m' j z (ground arith)
              | inr a ↦ m j (ground arith) (omega arith)
            ],
          ))
      | inl (e', m') ↦ inr (
          inr (
            rw (e, e'),
            λ j z h. elim (Bool-cases (ltb j req)) [
              | inl a ↦ m' j z (ground arith)
              | inr a ↦ m j (ground arith) (omega arith)
            ],
          ))
    ]
  ]

  -- The choice between the two answers.
  pick :
      (a b : ℕ)
      → down ≡ pos a
      → up ≡ pos b
      → a < s.total_states
      → b < s.total_states
      → free a ≡ true
      → free b ≡ true
      → ((j : ℕ)
          → j < s.total_states
          → free j ≡ true
          → (dist req a ≤ dist req j) ⊎ (dist req b ≤ dist req j))
      → (i : ℕ) × (search_state_closest K running s old req ≡ pos i)
        × (i < s.total_states)
        × (free i ≡ true)
        × ((j : ℕ) → j < s.total_states → free j ≡ true → dist req i ≤ dist req j)
  unfolding search_state_closest
  pick a b e e' la lb ta tb near = elim (Bool-cases (free req)) [
    | inl here ↦ (req, ground arith, valid, here, λ j lj tj. omega arith)
    | inr gone ↦ elim (Bool-cases (ltb (dist req a) (dist req b))) [
      | inl h ↦
          (a, rw (gone, e, e', h) (ground arith), la, ta, λ j lj tj. ground (arith, near j lj tj))
      | inr h ↦
          (b, rw (gone, e, e', h) (ground arith), lb, tb, λ j lj tj. ground (arith, near j lj tj))
    ]
  ]

  -- For a requested state that exists: if some state is free, `search_state_closest` returns a free
  -- state, and no free state is nearer to the requested one.
  pub search_state_closest_nearest :
      (k : ℕ)
      → k < s.total_states
      → free k ≡ true
      → (i : ℕ) × (search_state_closest K running s old req ≡ pos i)
        × (i < s.total_states)
        × (free i ≡ true)
        × ((j : ℕ) → j < s.total_states → free j ≡ true → dist req i ≤ dist req j)
  search_state_closest_nearest k l t = elim search_state_down_cases [
    | inl (a, e, la, ta, ma) ↦ elim search_state_up_cases [
      | inl (b, e', gb, lb, tb, mb) ↦ pick a b e e' (omega arith) lb ta tb (λ j lj tj.
          elim (Bool-cases (leb j req)) [
            | inl h ↦ inl (ground (arith, ma j))
            | inr h ↦ inr (ground (arith, mb j))
          ])
      | inr (inl (b, e', lb, tb, mb)) ↦
          pick a b e e' (omega arith) (omega arith) ta tb (λ j lj tj. inr (ground (arith, mb j)))
      | inr (inr (_, m)) ↦ ground (arith, m k)
    ]
    | inr (inl (a, e, ga, la, ta, ma)) ↦ elim search_state_up_cases [
      | inl (b, e', gb, lb, tb, mb) ↦
          pick a b e e' la lb ta tb (λ j lj tj. inl (ground (arith, ma j)))
      | inr (inl (b, e', lb, tb, mb)) ↦ ground (arith, ma b)
      | inr (inr (_, m)) ↦ ground (arith, m k)
    ]
    | inr (inr (_, m)) ↦ ground (arith, m k)
  ]

  -- For a requested state that exists: if no state is free, `search_state_closest` returns what `lowest_loaded_state` does.
  pub search_state_closest_none_free :
      Misses free 0 s.total_states
      → search_state_closest K running s old req ≡ lowest_loaded_state K running s
  unfolding search_state_closest
  search_state_closest_none_free m = elim search_state_down_cases [
    | inl (i, e, l, t, _) ↦ ground (arith, m i)
    | inr (inl (i, e, g, l, t, _)) ↦ ground (arith, m i)
    | inr (inr (e, _)) ↦ elim search_state_up_cases [
      | inl (i, e', g, l, t, _) ↦ ground (arith, m i)
      | inr (inl (i, e', g, t, _)) ↦ ground (arith, m i)
      | inr (inr (e', _)) ↦ rw (e, e') (ground (arith, m req))
    ]
  ]

  -- If some state is free, each of the two one-sided searches returns a free state.
  pub search_state_down_finds :
      (k : ℕ)
      → k < s.total_states
      → free k ≡ true
      → (i : ℕ) × (down ≡ pos i) × (i < s.total_states) × (free i ≡ true)
  search_state_down_finds k l t = elim search_state_down_cases [
    | inl (i, e, g, f, _) ↦ (i, e, omega arith, f)
    | inr (inl (i, e, _, g, f, _)) ↦ (i, e, g, f)
    | inr (inr (_, m)) ↦ ground (arith, m k)
  ]

  pub search_state_up_finds :
      (k : ℕ)
      → k < s.total_states
      → free k ≡ true
      → (i : ℕ) × (up ≡ pos i) × (i < s.total_states) × (free i ≡ true)
  search_state_up_finds k l t = elim search_state_up_cases [
    | inl (i, e, _, g, f, _) ↦ (i, e, g, f)
    | inr (inl (i, e, g, f, _)) ↦ (i, e, omega arith, f)
    | inr (inr (_, m)) ↦ ground (arith, m k)
  ]
