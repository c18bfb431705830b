-- ===== src/Cpufreq/Tables/Prune.antt =====
-- The second loop of `prune_states`: its end, and what it keeps.
use seeker_scheduler.Common.{
  ℕ, zero, suc, ◌+◌, ◌-◌, ◌≤◌, ◌<◌, ◌≡◌, ◌≢◌, refl, ◌∙◌, ap, true, false, leb, ltb, ◌==◌,
  if◌then◌else◌, update, List, [], ◌∷◌, take, for_up_inv, one_if_eq, arith, inl, inr, Bool-cases,
  none, some, ◌&&◌, sym, subst, ==_iff,
}
use seeker_scheduler.Cpufreq.Tables.{shift_down, remove_entry, prune_from, Pruning, max_states}

shift_down_lem :
    (i : ℕ) (a : ℕ → ℕ) (j : ℕ)
    → i ≤ 7
    → shift_down i a j ≡ (if leb i j && ltb j 7 then a (suc j) else a j)
unfolding shift_down
shift_down_lem i a j h =
    for_up_inv (λ m b. (j : ℕ) → b j ≡ (if leb i j && ltb j (i + m) then a (suc j) else a j))
      (max_states - 1 - i) (λ k b. update b (i + k) (b (suc (i + k)))) a (λ j. ground arith)
      (λ m b l e j. ground (arith, e (suc (i + m)), e j)) j
    ∙ ground arith

-- The marked cells among the `d` cells from `i`: how many, and their frequencies.
unfoldable pub marks : (ℕ → ℕ) → (i d : ℕ) → ℕ
marks v i zero = 0
marks v i (suc d) = one_if_eq (v i) 2 + marks v (suc i) d

pub kept : (v t : ℕ → ℕ) → (i d : ℕ) → List ℕ
kept v t i zero = []
kept v t i (suc d) = if v i == 2 then t i ∷ kept v t (suc i) d else kept v t (suc i) d

pub cells : (ℕ → ℕ) → (i n : ℕ) → List ℕ
cells t i zero = []
cells t i (suc n) = t i ∷ cells t (suc i) n

marks-shift :
    (v : ℕ → ℕ) (from i d : ℕ)
    → from ≤ i
    → i + d ≤ 7
    → marks (shift_down from v) i d ≡ marks v (suc i) d
unfolding marks
marks-shift v from i zero h l = refl
marks-shift v from i (suc d) h l =
    ground (arith, shift_down_lem from v i, marks-shift v from (suc i) d)

kept-shift :
    (v t : ℕ → ℕ) (from i d : ℕ)
    → from ≤ i
    → i + d ≤ 7
    → kept (shift_down from v) (shift_down from t) i d ≡ kept v t (suc i) d
unfolding kept
kept-shift v t from i zero h l = refl
kept-shift v t from i (suc d) h l =
    ground (arith, shift_down_lem from v i, shift_down_lem from t i, kept-shift v t from (suc i) d)

marks-remove :
    (i d : ℕ) (p : Pruning)
    → i + d ≤ 7
    → marks (remove_entry i p).valid i d ≡ marks p.valid (suc i) d
unfolding remove_entry
marks-remove i d p h = marks-shift p.valid i i d (omega arith) h

-- What the loop leaves when it ends, from `i`, with `d` cells still to look at.
pub record PrunesTo (d len i : ℕ) (p r : Pruning) : Type 0 where
  pub frame : (j : ℕ) → j < i → r.table j ≡ p.table j
  pub listed : cells r.table i (len - i) ≡ take (len - i) (kept p.valid p.table i d)

prune_from_done :
    (fuel d len i : ℕ) (p : Pruning)
    → len ≤ i
    → (prune_from (suc fuel) len i p ≡ some p) × PrunesTo d len i p p
unfolding prune_from cells
prune_from_done fuel d len i p h =
    let e : len - i ≡ 0 = omega arith in
    (ground arith, record { frame = λ j l. refl; listed = rw e refl })

prune_from_keep :
    (fuel d len i : ℕ) (p r : Pruning)
    → i < len
    → (p.valid i == 2) ≡ true
    → prune_from fuel len (suc i) p ≡ some r
    → PrunesTo d len (suc i) p r
    → (prune_from (suc fuel) len i p ≡ some r) × PrunesTo (suc d) len i p r
unfolding prune_from cells kept
prune_from_keep fuel d len i p r l two e q =
    let n : len - i ≡ suc (len - suc i) = omega arith in
    (
      ground arith,
      record {
        frame = λ j h. q.frame j (omega arith);
        listed = rw (n, two) (ground (arith, q.frame i, q.listed));
      },
    )

prune_from_drop :
    (fuel d len i : ℕ) (p r : Pruning)
    → i < len
    → i + d ≤ 7
    → (p.valid i == 2) ≡ false
    → prune_from fuel len i (remove_entry i p) ≡ some r
    → PrunesTo d len i (remove_entry i p) r
    → (prune_from (suc fuel) len i p ≡ some r) × PrunesTo (suc d) len i p r
unfolding prune_from kept remove_entry
prune_from_drop fuel d len i p r l h other e q = (
  ground arith,
  record {
    frame = λ j b. ground (arith, q.frame j, shift_down_lem i p.table j);
    listed = rw (other, ← kept-shift p.valid p.table i i d (omega arith) h) q.listed;
  },
)

-- If at least as many cells are marked as the user gave entries, the loop ends, and the table begins
-- with the frequencies of the marked cells, in order, one for each entry.
pub prune_from_lem :
    (fuel d len i : ℕ) (p : Pruning)
    → i + d ≤ 8
    → len ≤ i + marks p.valid i d
    → d < fuel
    → (r : Pruning) × (prune_from fuel len i p ≡ some r) × PrunesTo d len i p r
unfolding marks
prune_from_lem zero d len i p h m f = absurd (omega arith)
prune_from_lem (suc fuel) zero len i p h m f =
    let q = prune_from_done fuel zero len i p (omega arith) in (p, q.0, q.1)
prune_from_lem (suc fuel) (suc d) len i p h m f = elim (Bool-cases (ltb i len)) [
  | inr done ↦ let q = prune_from_done fuel (suc d) len i p (ground arith) in (p, q.0, q.1)
  | inl more ↦ elim (Bool-cases (p.valid i == 2)) [
    | inl two ↦
        let (r, e, q) =
          prune_from_lem fuel d len (suc i) p (omega arith) (ground arith) (omega arith) in
        let k = prune_from_keep fuel d len i p r (ground arith) two e q in (r, k.0, k.1)
    | inr other ↦
        let (r, e, q) =
          prune_from_lem fuel d len i (remove_entry i p) (omega arith)
            (ground (arith, marks-remove i d p)) (omega arith) in
        let k = prune_from_drop fuel d len i p r (ground arith) (omega arith) other e q in
        (r, k.0, k.1)
  ]
]

marks_last : (v : ℕ → ℕ) (i d : ℕ) → marks v i (suc d) ≡ marks v i d + one_if_eq (v (i + d)) 2
unfolding marks
marks_last v i zero = ground arith
marks_last v i (suc d) = ground (arith, marks_last v (suc i) d)

valid-remove_last : (i : ℕ) (p : Pruning) → i ≤ 7 → (remove_entry i p).valid 7 ≡ p.valid 7
unfolding remove_entry
valid-remove_last i p h = ground (arith, shift_down_lem i p.valid 7)

-- Too few marks, and none in the last cell: so it is again after an entry was removed.
abbrev pub TooFew : (d len i : ℕ) → Pruning → Type 0
TooFew d len i p = (p.valid 7 ≢ 2) × (i + marks p.valid i (suc d) < len)

remove-TooFew :
    (d len i : ℕ) (p : Pruning)
    → i + d ≡ 7
    → (p.valid i == 2) ≡ false
    → TooFew d len i p
    → TooFew d len i (remove_entry i p)
unfolding marks
remove-TooFew d len i p h other (last, few) =
    let seven : (remove_entry i p).valid (i + d) ≡ p.valid 7 =
      subst (λ k. (remove_entry i p).valid k ≡ p.valid 7) (sym h)
        (valid-remove_last i p (omega arith)) in
    (
      (λ e. last (sym (valid-remove_last i p (omega arith)) ∙ e)),
      ground
          (arith, seven, marks_last (remove_entry i p).valid i d, marks-remove i d p (omega arith)),
    )

-- If fewer cells are marked, as when the user repeats an entry, and the last cell is not, the loop
-- never ends: whatever the number of rounds, it is still running.
pub prune_from_never_ends :
    (fuel d len i : ℕ) (p : Pruning) → i + d ≡ 7 → TooFew d len i p → prune_from fuel len i p ≡ none
unfolding prune_from marks
prune_from_never_ends zero d len i p h few = refl
prune_from_never_ends (suc fuel) zero len i p h few = elim (Bool-cases (p.valid i == 2)) [
  | inl two ↦ absurd (few.0 (ap p.valid (omega arith) ∙ (==_iff (p.valid i) 2).0 two))
  | inr other ↦
      let rest =
        prune_from_never_ends fuel zero len i (remove_entry i p) h
          (remove-TooFew zero len i p h other few) in
      ground (arith, rest)
]
prune_from_never_ends (suc fuel) (suc d) len i p h few = elim (Bool-cases (p.valid i == 2)) [
  | inl two ↦
      let rest = prune_from_never_ends fuel d len (suc i) p (omega arith) (few.0, ground arith) in
      ground (arith, rest)
  | inr other ↦
      let rest =
        prune_from_never_ends fuel (suc d) len i (remove_entry i p) h
          (remove-TooFew (suc d) len i p h other few) in
      ground (arith, rest)
]

-- If the first cells are all marked, the loop removes nothing: also the states past them, which the
-- user did not list, stay.
pub prune_from_prefix :
    (fuel len i : ℕ) (p : Pruning)
    → len ≤ i + fuel
    → ((j : ℕ) → j < len → p.valid j ≡ 2)
    → prune_from (suc fuel) len i p ≡ some p
unfolding prune_from
prune_from_prefix zero len i p f all = ground arith
prune_from_prefix (suc fuel) len i p f all =
    ground (arith, prune_from_prefix fuel len (suc i) p (omega arith) all, all i)
