-- ===== src/Mutate/Greedy/Round.antt =====
-- What a round of the auction does.
use seeker_scheduler.Common.{
  ℕ, zero, suc, ◌≤◌, ◌<◌, ◌≡◌, refl, ◌∙◌, ap, sym, +ℤ_parts, -ℤ_parts, ◌⊎◌, inl, inr, true, false,
  Bool-cases, ltb, ◌==◌, ◌||◌, ◌&&◌, if◌then◌else◌, ℤ, pos, negsuc, pos_part, neg_part, ◌+ℤ◌, ◌-ℤ◌,
  ◌*ℤ◌, ◌≤ℤ◌, ◌<ℤ◌, ltb_ℤ, leb_ℤ, eqb_ℤ, dist, for_up, for_up_inv, arith,
}
use seeker_scheduler.Mutate.Demand.{update_demand_field}
use seeker_scheduler.Mutate.Greedy.{
  matrix_cell, update_state_matrix, update_state_weight, Best, winning_round, update_winning_procs,
  Winner, winner_round, get_winning_state, Auction, award, ends, auction_round, Matrix,
}

matrix_cell_below :
    (total : ℕ) (delta direction : ℤ) (state j : ℕ)
    → ltb_ℤ (pos j) (pos state -ℤ delta) ≡ true
    → matrix_cell total delta direction state j ≡ pos 0
unfolding matrix_cell
matrix_cell_below total delta direction state j h = rw h

matrix_cell_above :
    (total : ℕ) (delta direction : ℤ) (state j : ℕ)
    → ltb_ℤ (pos j) (pos state -ℤ delta) ≡ false
    → ltb j state ≡ false
    → (j == state) ≡ false
    → leb_ℤ (pos j) (pos state +ℤ delta) ≡ false
    → matrix_cell total delta direction state j ≡ pos 0
unfolding matrix_cell
matrix_cell_above total delta direction state j a b c d = rw (a, b, c, d)

-- The cells of states more than `delta` away are 0.
matrix_cell_far :
    (total : ℕ) (delta direction : ℤ) (state j : ℕ)
    → pos 0 <ℤ delta
    → delta <ℤ pos (dist state j)
    → matrix_cell total delta direction state j ≡ pos 0
matrix_cell_far total delta direction state j d h = elim (Bool-cases (ltb j state)) [
  | inl left ↦
      matrix_cell_below total delta direction state j (ground (arith, -ℤ_parts (pos state) delta))
  | inr right ↦
      matrix_cell_above total delta direction state j (ground (arith, -ℤ_parts (pos state) delta))
        right (ground arith) (ground (arith, +ℤ_parts (pos state) delta))
]

-- Only the states no more than `delta` away have a positive cell.
matrix_cell_reach :
    (total : ℕ) (delta direction : ℤ) (state j : ℕ)
    → pos 0 <ℤ delta
    → pos 0 <ℤ matrix_cell total delta direction state j
    → pos (dist state j) ≤ℤ delta
matrix_cell_reach total delta direction state j d h =
    elim (Bool-cases (leb_ℤ (pos (dist state j)) delta)) [
      | inl near ↦ ground arith
      | inr far ↦
          let zero_there = matrix_cell_far total delta direction state j d (ground arith) in
          absurd (omega (arith, h, ap pos_part zero_there))
    ]

-- What `update_winning_procs` knows after `m` cpus.
data Leads (n : ℕ) (sel : ℕ → ℕ) (x : Matrix) (j : ℕ) (b : Best) : Type 0 where
  nobody : b.max_val ≡ pos 0 → b.max ≡ negsuc 0 → Leads n sel x j b
  leader :
      (i : ℕ)
      → b.max ≡ pos i
      → i < n
      → pos 0 <ℤ b.max_val
      → b.max_val ≡ pos (sel i) *ℤ x i j
      → Leads n sel x j b

winning_round-Leads :
    (sel : ℕ → ℕ) (x : Matrix) (j m : ℕ) (b : Best)
    → Leads m sel x j b
    → Leads (suc m) sel x j (winning_round sel x j m b)
unfolding winning_round
winning_round-Leads sel x j m b (nobody v e) =
    elim (Bool-cases (ltb_ℤ b.max_val (pos (sel m) *ℤ x m j))) [
      | inl more ↦ rw more (leader m refl (omega arith) (ground arith) refl)
      | inr less ↦ rw less (nobody v e)
    ]
winning_round-Leads sel x j m b (leader i e l p v) =
    elim (Bool-cases (ltb_ℤ b.max_val (pos (sel m) *ℤ x m j))) [
      | inl more ↦ rw more (leader m refl (omega arith) (ground arith) refl)
      | inr less ↦ rw less (leader i e (omega arith) p v)
    ]

update_winning_procs-Leads :
    (n : ℕ) (sel : ℕ → ℕ) (x : Matrix) (j : ℕ)
    → (b : Best) × (b.max ≡ update_winning_procs n sel x j) × Leads n sel x j b
unfolding update_winning_procs
update_winning_procs-Leads n sel x j = (
  for_up n (winning_round sel x j) (record { max_val = pos 0; max = negsuc 0 }),
  refl,
  for_up_inv (λ m b. Leads m sel x j b) n (winning_round sel x j) _ (nobody refl refl)
      (λ m b l h. winning_round-Leads sel x j m b h),
)

product_pos : (s : ℕ) (v : ℤ) → s ≤ 1 → pos 0 <ℤ pos s *ℤ v → (s ≡ 1) × (pos 0 <ℤ v)
unfolding ◌*ℤ◌
product_pos zero v l h = ground arith
product_pos (suc zero) v l h = ground arith
product_pos (suc (suc s)) v l h = absurd (omega arith)

-- A winning cpu is not selected yet, and its cell is positive.
update_winning_procs_lem :
    (n : ℕ) (sel : ℕ → ℕ) (x : Matrix) (j i : ℕ)
    → ((k : ℕ) → k < n → sel k ≤ 1)
    → update_winning_procs n sel x j ≡ pos i
    → (i < n) × (sel i ≡ 1) × (pos 0 <ℤ x i j)
update_winning_procs_lem n sel x j i bit e =
    let (b, w, l) = update_winning_procs-Leads n sel x j in
    elim l [
      | nobody v m ↦ absurd (omega (arith, ap neg_part (sym w ∙ m), ap neg_part e))
      | leader k m h p v ↦
          let same : k ≡ i = ap pos_part (sym m ∙ w ∙ e) in
          let q = product_pos (sel k) (x k j) (bit k h) (rw (← v) p) in rw (← same) (h, q.0, q.1)
    ]

-- What `get_winning_state` knows after `m` states.
abbrev Picked : ℕ → ℤ → Type 0
Picked m w = (w ≡ negsuc 0) ⊎ ((j : ℕ) × (w ≡ pos j) × (j < m))

winner_round-Picked :
    (before : ℕ → ℤ) (x : Matrix) (weight field winning : ℕ → ℤ) (m : ℕ) (w : Winner)
    → Picked m w.max
    → Picked (suc m) (winner_round before x weight field winning m w).max
unfolding winner_round
winner_round-Picked before x weight field winning m w h =
    let cell = (if eqb_ℤ (winning m) (negsuc 0) then before m else x (pos_part (winning m)) m) in
    elim (Bool-cases (
      ltb_ℤ w.max_weight (weight m *ℤ field m)
      || (eqb_ℤ (weight m *ℤ field m) w.max_weight && ltb_ℤ w.max_proc cell))) [
        | inl better ↦ rw better (inr (m, refl, omega arith))
        | inr worse ↦ rw worse (elim h [ inl e ↦ inl e | inr (j, e, l) ↦ inr (j, e, omega arith) ])
      ]

get_winning_state-Picked :
    (total : ℕ) (before : ℕ → ℤ) (x : Matrix) (weight field winning : ℕ → ℤ)
    → Picked total (get_winning_state total before x weight field winning)
unfolding get_winning_state
get_winning_state-Picked total before x weight field winning =
    for_up_inv (λ m w. Picked m w.max) total (winner_round before x weight field winning) _
      (inl refl) (λ m w l h. winner_round-Picked before x weight field winning m w h)

module _ (total_states n load : ℕ) (total direction : ℤ) (cur : ℕ → ℕ) (before : ℕ → ℤ) where
  -- What a round of the auction is.
  pub data Round (a : Auction) : Auction → Type 0 where
    over : Round a a
    stops : Round a (record a { stopped = true })
    awards :
        (w p : ℕ) (source : ℕ → ℕ)
        → w < total_states
        → p < n
        → pos 0 <ℤ a.delta
        → a.selected_cpus p ≡ 1
        → pos (dist (a.new_cpu_state p) w) ≤ℤ a.delta
        → Round a (award total_states n load total direction cur before w p source a)

  -- What the conditions leave.
  ends_not :
      (winner winner_proc : ℤ) (a : Auction)
      → ends total_states n load total direction cur before winner winner_proc a ≡ false
      → (pos 0 <ℤ a.delta)
        × (winner ≡ pos (pos_part winner))
        × (pos_part winner < total_states)
        × (winner_proc ≡ pos (pos_part winner_proc))
        × (pos_part winner_proc < n)
  unfolding ends
  ends_not winner winner_proc a h =
      (ground arith, ground arith, ground arith, ground arith, ground arith)

  pub auction_round-Round :
      (a : Auction)
      → ((k : ℕ) → k < n → a.selected_cpus k ≤ 1)
      → Round a (auction_round total_states n load total direction cur before a)
  unfolding auction_round update_state_matrix
  auction_round-Round a bit =
      let m = update_state_matrix total_states a.delta direction a.new_cpu_state in
      let weight = update_state_weight n m in
      let winning = update_winning_procs n a.selected_cpus m in
      let field = update_demand_field total_states direction a.demand weight in
      let winner = get_winning_state total_states before m weight field.demand_field winning in
      let winner_proc = winning (pos_part winner) in
      elim (Bool-cases a.stopped) [
        | inl stopped ↦ rw stopped over
        | inr going ↦
            elim (Bool-cases
              (ends total_states n load total direction cur before winner winner_proc a)) [
                | inl e ↦ rw (going, e) stops
                | inr goes_on ↦
                    let (d, w, lw, p, lp) = ends_not winner winner_proc a goes_on in
                    let (_, s, c) =
                      update_winning_procs_lem n a.selected_cpus m (pos_part winner)
                        (pos_part winner_proc) bit p in
                    rw (going, goes_on)
                      (awards (pos_part winner) (pos_part winner_proc) field.proxy_source lw lp d s
                        (matrix_cell_reach total_states a.delta direction
                          (a.new_cpu_state (pos_part winner_proc)) (pos_part winner) d c))
              ]
      ]
