-- ===== src/Mutate/Dynamic/Transform.antt =====
-- `delta_based_demand_transform`: who gets the demand of the states out of reach.
use seeker_scheduler.Common.{
  ℕ, zero, suc, ◌-◌, ◌≤◌, ◌<◌, ◌≡◌, ◌≢◌, refl, ap, ◌⊎◌, inl, inr, Bool, Bool-cases, true, false,
  Option, some, if◌then◌else◌, leb, ltb, ◌==◌, ℤ, pos, ◌+ℤ◌, add_zero_ℤ, eqb_ℤ, ◌≤ℤ◌, ltb_ℤ, for_up,
  dist, arith,
}
use seeker_scheduler.Search.Scan.{first_down, first_up, first_down_cases, first_up_cases}
use seeker_scheduler.Mutate.Dynamic.{can_win, choose_neighbour, hand_over, transform_round}

-- `can_win` says whether one of the cpus that are listed reaches the state.
pub can_win_iff :
    (cpus delta : ℕ) (cur proxy : ℕ → ℕ) (j : ℕ)
    → ((can_win cpus delta cur proxy j ≡ true)
        × (i : ℕ) × (i < cpus)
        × (dist (cur (proxy i)) j ≤ delta))
      ⊎ ((can_win cpus delta cur proxy j ≡ false)
          × ((i : ℕ) → i < cpus → delta < dist (cur (proxy i)) j))
unfolding can_win for_up
can_win_iff zero delta cur proxy j = inr (refl, λ i l. absurd (omega arith))
can_win_iff (suc n) delta cur proxy j = elim (can_win_iff n delta cur proxy j) [
  | inl (e, i, l, h) ↦ inl (rw e refl, i, omega arith, h)
  | inr (e, far) ↦ elim (Bool-cases (leb (dist (cur (proxy n)) j) delta)) [
    | inl near ↦ inl (rw (e, near) refl, n, omega arith, ground arith)
    | inr past ↦ inr (rw (e, past) refl, λ i l. ground (arith, far i))
  ]
]

module _ (m : ℕ) (wins : ℕ → Bool) (demand : ℕ → ℤ) (j : ℕ) where
  -- The nearest winning state, and of two that are as near, the one in more demand.
  pub record Nearest (friend : ℕ) : Type 0 where
    pub exists : friend < m
    pub winner : wins friend ≡ true
    pub near : (i : ℕ) → i < m → wins i ≡ true → dist friend j ≤ dist i j
    pub wanted :
        (i : ℕ) → i < m → wins i ≡ true → dist friend j ≡ dist i j → demand i ≤ℤ demand friend

  -- What the searches to the left and to the right leave to be compared.
  Nearest-cases :
      (friend : ℕ)
      → friend < m
      → wins friend ≡ true
      → ((i : ℕ)
          → i < m
          → wins i ≡ true
          → (i ≡ friend)
            ⊎ (suc (dist friend j) ≤ dist i j)
            ⊎ ((dist friend j ≤ dist i j) × (demand i ≤ℤ demand friend)))
      → Nearest friend
  Nearest-cases friend l w h = record {
    exists = l;
    winner = w;
    near = λ i li wi. elim (h i li wi) [
      | inl same ↦ rw same (omega arith)
      | inr (inl far) ↦ omega arith
      | inr (inr (le, d)) ↦ le
    ];
    wanted = λ i li wi e. elim (h i li wi) [
      | inl same ↦ rw same (omega arith)
      | inr (inl far) ↦ absurd (omega arith)
      | inr (inr (le, d)) ↦ d
    ];
  }

  either : ℕ → ℕ → ℕ
  either a r =
      if dist a j == dist r j
      then if ltb_ℤ (demand r) (demand a) then a else r
      else if ltb (dist a j) (dist r j)
      then a
      else r

  either-Nearest :
      (a r : ℕ)
      → a < m
      → wins a ≡ true
      → r < m
      → wins r ≡ true
      → a < j
      → j < r
      → ((i : ℕ) → i < m → wins i ≡ true → (i ≡ a) ⊎ (i ≡ r) ⊎ (i < a) ⊎ (r < i))
      → Nearest (either a r)
  unfolding either
  either-Nearest a r la wa lr wr aj jr others = elim (Bool-cases (dist a j == dist r j)) [
    | inl tie ↦ elim (Bool-cases (ltb_ℤ (demand r) (demand a))) [
      | inl more ↦
          rw (tie, more) (Nearest-cases a la wa (λ i li wi. ground (arith, others i li wi)))
      | inr less ↦
          rw (tie, less) (Nearest-cases r lr wr (λ i li wi. ground (arith, others i li wi)))
    ]
    | inr uneven ↦ elim (Bool-cases (ltb (dist a j) (dist r j))) [
      | inl left ↦
          rw (uneven, left) (Nearest-cases a la wa (λ i li wi. ground (arith, others i li wi)))
      | inr right ↦
          rw (uneven, right) (Nearest-cases r lr wr (λ i li wi. ground (arith, others i li wi)))
    ]
  ]

  abbrev pub neighbour : Option ℕ
  neighbour = choose_neighbour demand j (first_down wins (suc j)) (first_up wins j (m - j))

  apart : {a b : ℕ} → wins a ≡ true → wins b ≡ false → a ≢ b
  apart s n e = ground (arith, ap wins e)

  -- If some state can win, a state that cannot has a nearest one that can.
  pub neighbour-Nearest :
      (h : ℕ)
      → j < m
      → wins j ≡ false
      → h < m
      → wins h ≡ true
      → (friend : ℕ) × (neighbour ≡ some friend) × Nearest friend
  unfolding choose_neighbour either
  neighbour-Nearest h lj out lh win = elim (first_down_cases wins (suc j)) [
    | inl (e, miss) ↦ elim (first_up_cases wins j (m - j)) [
      | inl (e', miss') ↦ absurd (ground (arith, miss h, miss' h))
      | inr (r, e', g, l, t, miss') ↦ (
        r,
        rw (e, e') refl,
        Nearest-cases r (omega arith) t (λ i li wi. elim (Bool-cases (i == r)) [
          | inl same ↦ inl (ground arith)
          | inr other ↦ inr (inl (ground (arith, miss i, miss' i)))
        ]),
      )
    ]
    | inr (a, e, l, t, miss) ↦ elim (first_up_cases wins j (m - j)) [
      | inl (e', miss') ↦ (
        a,
        rw (e, e') refl,
        Nearest-cases a (omega arith) t (λ i li wi. elim (Bool-cases (i == a)) [
          | inl same ↦ inl (ground arith)
          | inr other ↦ inr (inl (ground (arith, miss i, miss' i)))
        ]),
      )
      | inr (r, e', g, l', t', miss') ↦ (
        either a r,
        rw (e, e') refl,
        either-Nearest a r (omega arith) t (omega arith) t' (omega (arith, apart t out))
            (omega (arith, apart t' out)) (λ i li wi. ground (arith, miss i, miss' i)),
      )
    ]
  ]

  handed :
      (friend : ℕ)
      → neighbour ≡ some friend
      → wins j ≡ false
      → (i : ℕ)
      → transform_round m wins j demand i ≡ (if friend == i then demand i +ℤ demand j else demand i)
  unfolding transform_round hand_over
  handed friend e out i = elim (Bool-cases (eqb_ℤ (demand j) (pos 0))) [
    | inl nothing ↦ rw (out, nothing) (ground (arith, add_zero_ℤ (demand i) (demand j)))
    | inr something ↦ rw (out, something, e) (ground (arith, ap demand))
  ]

  -- If some state can win, the round of a state that can win changes nothing, and the round of a state
  -- that cannot adds its demand to that of a state that can, and changes no other demand: none that
  -- can win is nearer to it, and of those that are as near none is in more demand.
  pub transform_round_lem :
      (h : ℕ)
      → j < m
      → h < m
      → wins h ≡ true
      → ((wins j ≡ true) × (transform_round m wins j demand ≡ demand))
        ⊎ ((wins j ≡ false)
            × (friend : ℕ) × Nearest friend
            × ((i : ℕ)
                → transform_round m wins j demand i
                  ≡ (if friend == i then demand i +ℤ demand j else demand i)))
  unfolding transform_round
  transform_round_lem h lj lh win = elim (Bool-cases (wins j)) [
    | inl winner ↦ inl (winner, rw winner refl)
    | inr out ↦
        let (friend, e, near) = neighbour-Nearest h lj out lh win in
        inr (out, friend, near, handed friend e out)
  ]
