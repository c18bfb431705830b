-- ===== src/Mutate/Dynamic/Table.antt =====
-- The rows of the table of `mck`.
use seeker_scheduler.Common.{
  ℕ, zero, suc, ◌+◌, ◌-◌, ◌≤◌, ◌<◌, ◌≡◌, refl, ◌⊎◌, inl, inr, Bool-cases, ◌&&◌, true, false, not,
  leb, ◌==◌, if◌then◌else◌, ℤ, pos, negsuc, pos_part, +ℤ_pos, ltb_ℤ, update, for_up, for_up_inv,
  arith,
}
use seeker_scheduler.Mutate.Dynamic.{
  Cell, Row, Choice, no_choice, first_pick_round, first_cell, pick_round, next_cell, blank, dyna,
}

-- What a choice or a cell `(f, sol)` of a row is to be, if `before b` is the most that the cpus before
-- it gain with the budget `b`, and `d` the states' demands: the most that is possible.
pub record Most (before d : ℕ → ℕ) (wt : ℕ → ℕ) (b m : ℕ) (f sol : ℤ) : Type 0 where
  pub value : ℕ
  pub choice : ℕ
  pub f_value : f ≡ pos value
  pub sol_choice : sol ≡ pos choice
  pub exists : choice < m
  pub fits : wt choice ≤ b
  pub gains : value ≡ before (b - wt choice) + d choice
  pub most : (j : ℕ) → j < m → wt j ≤ b → before (b - wt j) + d j ≤ value

-- Nothing is chosen while no state fits.
record Empty (wt : ℕ → ℕ) (b m : ℕ) (c : Choice) : Type 0 where
  max_none : c.max ≡ negsuc 0
  none_fits : (j : ℕ) → j < m → b < wt j

module _ (before d wt : ℕ → ℕ) (b : ℕ) where
  abbrev Picked : ℕ → Choice → Type 0
  Picked m c = Empty wt b m c ⊎ Most before d wt b m c.max c.ind

  abbrev take_better : ℕ → Choice → Choice
  take_better j c =
      if leb (wt j) b && ltb_ℤ c.max (pos (before (b - wt j) + d j))
      then record { max = pos (before (b - wt j) + d j); ind = pos j }
      else c

  take_better-Picked : (j : ℕ) (c : Choice) → Picked j c → Picked (suc j) (take_better j c)
  take_better-Picked j c (inl e) = elim (Bool-cases (leb (wt j) b)) [
    | inl near ↦
        let lt : ltb_ℤ c.max (pos (before (b - wt j) + d j)) ≡ true =
          rw e.max_none (ground arith) in
        rw (near, lt)
          (inr (record {
            value = before (b - wt j) + d j;
            choice = j;
            f_value = refl;
            sol_choice = refl;
            exists = omega arith;
            fits = ground arith;
            gains = refl;
            most = λ i l h. elim (Bool-cases (i == j)) [
              | inl same ↦ let q : i ≡ j = ground arith in rw q (omega arith)
              | inr other ↦ absurd (ground (arith, e.none_fits i))
            ];
          }))
    | inr far ↦
        rw far
          (inl (record { max_none = e.max_none; none_fits = λ i l. ground (arith, e.none_fits i) }))
  ]
  take_better-Picked j c (inr v) =
      elim (Bool-cases (leb (wt j) b && ltb_ℤ c.max (pos (before (b - wt j) + d j)))) [
        | inl better ↦ rw better (
            inr (record {
              value = before (b - wt j) + d j;
              choice = j;
              f_value = refl;
              sol_choice = refl;
              exists = omega arith;
              fits = ground arith;
              gains = refl;
              most = λ i l h. elim (Bool-cases (i == j)) [
                | inl same ↦ let q : i ≡ j = ground arith in rw q (omega arith)
                | inr other ↦ ground (arith, v.most i, v.f_value)
              ];
            }))
        | inr worse ↦ rw worse (
            inr (record {
              value = v.value;
              choice = v.choice;
              f_value = v.f_value;
              sol_choice = v.sol_choice;
              exists = omega (arith, v.exists);
              fits = v.fits;
              gains = v.gains;
              most = λ i l h. elim (Bool-cases (i == j)) [
                | inl same ↦ let q : i ≡ j = ground arith in rw q (ground (arith, v.f_value))
                | inr other ↦ v.most i (ground arith) h
              ];
            }))
      ]

  -- A state that costs nothing makes sure that something fits.
  Picked-Most :
      (m home : ℕ) (c : Choice)
      → home < m
      → wt home ≡ 0
      → Picked m c
      → Most before d wt b m c.max c.ind
  Picked-Most m home c l z (inl e) = absurd (omega (arith, e.none_fits home l))
  Picked-Most m home c l z (inr v) = v

  -- A loop whose rounds take what is better finds the most.
  take_loop-Most :
      (m home : ℕ) (body : ℕ → Choice → Choice)
      → home < m
      → wt home ≡ 0
      → ((j : ℕ) (c : Choice) → j < m → body j c ≡ take_better j c)
      → let c = for_up m body no_choice in Most before d wt b m c.max c.ind
  take_loop-Most m home body l z same = Picked-Most m home (for_up m body no_choice) l z (
      for_up_inv Picked m body no_choice
        (inl (record { max_none = refl; none_fits = λ j h. absurd (omega arith) }))
        (λ j c h v. rw (same j c h) (take_better-Picked j c v)))

-- The cells below `b` of a row hold the most, and no less than the cells before them.
pub record Filled (before d wt : ℕ → ℕ) (m b : ℕ) (row : Row) : Type 0 where
  pub cell : (i : ℕ) → i < b → Most before d wt i m (row i).f (row i).sol

module _ (before d wt : ℕ → ℕ) (m home w : ℕ) (l : home < m) (z : wt home ≡ 0)
    (mono : (a b : ℕ) → a ≤ b → b ≤ w → before a ≤ before b) where
  -- A larger budget buys no less.
  Most-mono :
      (a b : ℕ) (f g sol ind : ℤ)
      → a ≤ b
      → b ≤ w
      → Most before d wt a m f sol
      → (v : Most before d wt b m g ind) → ltb_ℤ g f ≡ false
  Most-mono a b f g sol ind h hw u v =
      rw (u.f_value, v.f_value)
        (ground (
          arith,
          u.gains,
          mono (a - wt u.choice) (b - wt u.choice) (omega arith) (omega arith),
          v.most u.choice u.exists (omega (arith, u.fits)),
        ))

  -- A cell that is written with the most.
  write-Filled :
      (b : ℕ) (row : Row) (c : Cell)
      → Filled before d wt m b row
      → Most before d wt b m c.f c.sol
      → Filled before d wt m (suc b) (update row b c)
  write-Filled b row c v u = record {
    cell = λ i h. elim (Bool-cases (b == i)) [
      | inl here ↦ let q : i ≡ b = ground arith in rw here (subst_most q)
      | inr past ↦ rw past (v.cell i (ground arith))
    ];
  }
    where
      subst_most : {i : ℕ} → i ≡ b → Most before d wt i m c.f c.sol
      subst_most q = rw q u

  not_less :
      (b : ℕ) (row : Row) (f sol : ℤ)
      → b ≤ w
      → Filled before d wt m b row
      → Most before d wt b m f sol
      → (not (b == 0) && ltb_ℤ f (row (b - 1)).f) ≡ false
  not_less zero row f sol h v u = refl
  not_less (suc b) row f sol h v u = ground (
    arith,
    Most-mono b (suc b) (row b).f f (row b).sol sol (omega arith) h (v.cell b (omega arith)) u,
  )

  module _ (demand : ℕ → ℤ) (is_d : (j : ℕ) → j < m → demand j ≡ pos (d j))
      (d_pos : (j : ℕ) → j < m → 0 < d j) where
    Most-pos : (b : ℕ) (f sol : ℤ) → Most before d wt b m f sol → ltb_ℤ (pos 0) f ≡ true
    Most-pos b f sol u = rw u.f_value (ground (arith, u.gains, d_pos u.choice u.exists))

    first_cell-Filled :
        ((b : ℕ) → before b ≡ 0)
        → (b : ℕ) (row : Row) → b ≤ w
        → Filled before d wt m b row
        → Filled before d wt m (suc b) (first_cell demand m wt b row)
    unfolding first_cell first_pick_round
    first_cell-Filled zeros b row hw v =
        let u =
          take_loop-Most before d wt b m home (first_pick_round demand m wt b) l z
            (λ j c h. rw (is_d j h, alone (zeros (b - wt j))) refl) in
        rw (not_less b row _ _ hw v u, Most-pos b _ _ u) (write-Filled b row _ v u)
      where
        alone : {x y : ℕ} → x ≡ 0 → x + y ≡ y
        alone e = omega arith

    next_cell-Filled :
        (prior : Row) (b : ℕ) (row : Row)
        → b ≤ w
        → ((i : ℕ) → i ≤ b → (prior i).f ≡ pos (before i))
        → ((i : ℕ) → i ≤ b → 0 < before i)
        → Filled before d wt m b row
        → Filled before d wt m (suc b) (next_cell demand m wt prior b row)
    unfolding next_cell pick_round
    next_cell-Filled prior b row hw is_before has v =
        let u =
          take_loop-Most before d wt b m home (pick_round demand m wt prior b) l z
            (λ j c h. same j c h) in
        rw (not_less b row _ _ hw v u, Most-pos b _ _ u) (write-Filled b row _ v u)
      where
        positive : {x : ℕ} → 0 < x → ltb_ℤ (pos 0) (pos x) ≡ true
        positive h = ground arith

        same :
            (j : ℕ) (c : Choice)
            → j < m
            → pick_round demand m wt prior b j c ≡ take_better before d wt b j c
        same j c h = elim (Bool-cases (leb (wt j) b)) [
          | inl near ↦
              rw
                (
                  near,
                  is_before (b - wt j) (omega arith),
                  is_d j h,
                  +ℤ_pos (before (b - wt j)) (d j),
                  positive (has (b - wt j) (omega arith)),
                )
                refl
          | inr far ↦ rw far refl
        ]

-- `demand` is the array `d` of positive numbers, and each cpu stays in an existing state for nothing.
pub record Sound (demand : ℕ → ℤ) (d : ℕ → ℕ) (m : ℕ) (n : ℕ) (wt : ℕ → ℕ → ℕ) : Type 0 where
  pub is_d : (j : ℕ) → j < m → demand j ≡ pos (d j)
  pub d_pos : (j : ℕ) → j < m → 0 < d j
  pub home : (i : ℕ) → i < n → (j : ℕ) × (j < m) × (wt i j ≡ 0)

module _ (demand : ℕ → ℤ) (d : ℕ → ℕ) (m n w : ℕ) (wt : ℕ → ℕ → ℕ)
    (sound : Sound demand d m n wt) where
  -- What the first `k` cpus gain with the budget `b`, by the table.
  abbrev pub table_value : ℕ → ℕ → ℕ
  table_value k b = pos_part (dyna demand m w wt k b).f

  pub record RowRight (k : ℕ) : Type 0 where
    pub filled : Filled (table_value k) d (wt k) m (suc w) (dyna demand m w wt (suc k))
    pub mono : (a b : ℕ) → a ≤ b → b ≤ w → table_value (suc k) a ≤ table_value (suc k) b
    pub values : (b : ℕ) → b ≤ w → (dyna demand m w wt (suc k) b).f ≡ pos (table_value (suc k) b)
    pub values_pos : (b : ℕ) → b ≤ w → 0 < table_value (suc k) b

  Filled-RowRight :
      (k : ℕ)
      → k < n
      → ((a b : ℕ) → a ≤ b → b ≤ w → table_value k a ≤ table_value k b)
      → Filled (table_value k) d (wt k) m (suc w) (dyna demand m w wt (suc k))
      → RowRight k
  Filled-RowRight k l mono v =
      let (home, lh, z) = sound.home k l in
      record {
        filled = v;
        mono = λ a b h hw.
            let u = v.cell a (omega arith) in
            let x = v.cell b (omega arith) in
            rw (u.f_value, x.f_value)
              (omega (
                arith,
                u.gains,
                mono (a - wt k u.choice) (b - wt k u.choice) (omega arith) (omega arith),
                x.most u.choice u.exists (omega (arith, u.fits)),
              ));
        values = λ b h. let u = v.cell b (omega arith) in rw u.f_value refl;
        values_pos = λ b h.
            let u = v.cell b (omega arith) in
            rw u.f_value (omega (arith, u.gains, sound.d_pos u.choice u.exists));
      }

  pub dyna-RowRight : (k : ℕ) → k < n → RowRight k
  unfolding dyna
  dyna-RowRight zero l =
      let (home, lh, z) = sound.home 0 l in
      Filled-RowRight 0 l (λ a b h hw. omega arith)
        (for_up_inv (Filled (table_value 0) d (wt 0) m) (suc w) (first_cell demand m (wt 0)) blank
          (record { cell = λ i h. absurd (omega arith) })
          (λ b row h v.
            first_cell-Filled (table_value 0) d (wt 0) m home w lh z (λ a b h hw. omega arith)
              demand sound.is_d sound.d_pos (λ b. refl) b row (omega arith) v))
  dyna-RowRight (suc k) l =
      let (home, lh, z) = sound.home (suc k) l in
      let r = dyna-RowRight k (omega arith) in
      Filled-RowRight (suc k) l r.mono (
        for_up_inv (Filled (table_value (suc k)) d (wt (suc k)) m) (suc w)
          (next_cell demand m (wt (suc k)) (dyna demand m w wt (suc k))) blank
          (record { cell = λ i h. absurd (omega arith) })
          (λ b row h v.
            next_cell-Filled (table_value (suc k)) d (wt (suc k)) m home w lh z r.mono demand
              sound.is_d sound.d_pos (dyna demand m w wt (suc k)) b row (omega arith)
              (λ i hi. r.values i (omega arith)) (λ i hi. r.values_pos i (omega arith)) v))
