-- ===== src/Mutate/Wake.antt =====
-- The cpus that `wake_up_procs` wakes.
use seeker_scheduler.Common.{
  ℕ, zero, suc, min, max, ◌+◌, ◌≤◌, ◌<◌, ◌≡◌, refl, ◌⊎◌, inl, inr, Bool-cases, ◌==◌, if◌then◌else◌,
  update, for_up, for_up_inv, count_in, count_in-update_lt, count_in_mono, count_in-ext,
  count_in_full, count_in_missing, count_in-le, leb, one_if_eq, arith,
}
use seeker_scheduler.Mutate.{
  ProcInfo, uint_max, awake_total, WakeScan, wake_scan_round, wake_scan, wake_one, wake_rounds,
  wake_up_procs,
}

-- A cpu is awake and has not slept, or is not awake and has slept for some time.
pub data Sane (p : ProcInfo) : Type 0 where
  is_awake : p.awake ≡ 1 → p.sleep_time ≡ 0 → Sane p
  asleep : p.awake ≡ 0 → 0 < p.sleep_time → p.sleep_time < uint_max → Sane p

abbrev pub AllSane : (ℕ → ProcInfo) → ℕ → Type 0
AllSane info n = (i : ℕ) → i < n → Sane (info i)

-- The number of cpus awake.
abbrev pub awake_count : (ℕ → ProcInfo) → ℕ → ℕ
awake_count info n = count_in (λ i. (info i).awake) n 1

pub awake_total-eq-count :
    (info : ℕ → ProcInfo) (n : ℕ) → AllSane info n → awake_total info n ≡ awake_count info n
unfolding awake_total for_up count_in
awake_total-eq-count info zero h = refl
awake_total-eq-count info (suc n) h = elim (h n (omega arith)) [
  | is_awake a z ↦ ground (arith, awake_total-eq-count info n (λ i l. h i (omega arith)))
  | asleep a z l ↦ ground (arith, awake_total-eq-count info n (λ i l. h i (omega arith)))
]

-- What the inner loop has found among the first `m` cpus.
data Scanned (info : ℕ → ProcInfo) (m : ℕ) (w : WakeScan) : Type 0 where
  nobody :
      w.awake_total ≡ awake_count info m
      → w.wake_up_proc ≡ uint_max
      → w.min_sleep_time ≡ uint_max
      → ((j : ℕ) → j < m → (info j).awake ≡ 1)
      → Scanned info m w
  sleeper :
      w.awake_total ≡ awake_count info m
      → w.wake_up_proc < m
      → (info w.wake_up_proc).awake ≡ 0
      → w.min_sleep_time ≡ (info w.wake_up_proc).sleep_time
      → ((j : ℕ) → j < m → (info j).awake ≡ 0 → w.min_sleep_time ≤ (info j).sleep_time)
      → Scanned info m w

wake_scan_round-Scanned :
    (info : ℕ → ProcInfo) (req m : ℕ) (w : WakeScan)
    → Sane (info m)
    → awake_count info m < req
    → Scanned info m w
    → Scanned info (suc m) (wake_scan_round info req m w)
unfolding wake_scan_round count_in
wake_scan_round-Scanned info req m w (is_awake a z) l (nobody t p u all) =
    nobody (ground arith) (ground arith) (ground arith) (λ j h. ground (arith, all j))
wake_scan_round-Scanned info req m w (asleep a z b) l (nobody t p u all) =
    sleeper (ground arith) (ground arith) (ground arith) (ground arith)
      (λ j h e. ground (arith, all j))
wake_scan_round-Scanned info req m w (is_awake a z) l (sleeper t p s u least) =
    sleeper (ground arith) (ground arith) (ground arith) (ground arith)
      (λ j h e. ground (arith, least j))
wake_scan_round-Scanned info req m w (asleep a z b) l (sleeper t p s u least) =
    sleeper (ground arith) (ground arith) (ground arith) (ground arith)
      (λ j h e. ground (arith, least j))

one_if_eq_zero : (a : ℕ) → a ≡ 0 → (one_if_eq a 1 ≡ 0) × (one_if_eq 1 1 ≡ 1)
one_if_eq_zero a h = ground arith

module _ (req n : ℕ) where
  wake_scan-Scanned :
      (info : ℕ → ProcInfo)
      → AllSane info n
      → awake_count info n < req
      → Scanned info n (wake_scan info req n)
  unfolding wake_scan count_in
  wake_scan-Scanned info sane l =
      for_up_inv (Scanned info) n (wake_scan_round info req) _
        (nobody refl refl refl (λ j h. absurd (omega arith)))
        (λ m w h s.
          wake_scan_round-Scanned info req m w (sane m h)
            (omega (arith, count_in_mono (λ i. (info i).awake) m n 1)) s)

  -- Waking a cpu that sleeps.
  wake_one-count :
      (info : ℕ → ProcInfo) (c : ℕ)
      → c < n
      → (info c).awake ≡ 0
      → awake_count (wake_one c info) n ≡ suc (awake_count info n)
  unfolding wake_one
  wake_one-count info c h a = omega (
    arith,
    count_in-ext (λ i. (wake_one c info i).awake) (update (λ i. (info i).awake) c 1) n 1
        (λ i l. ground arith),
    count_in-update_lt (λ i. (info i).awake) n 1 c 1 h,
    one_if_eq_zero (info c).awake a,
  )

  wake_one-sane : (info : ℕ → ProcInfo) (c : ℕ) → AllSane info n → AllSane (wake_one c info) n
  unfolding wake_one
  wake_one-sane info c sane i l = elim (Bool-cases (c == i)) [
    | inl same ↦ is_awake (ground arith) (ground arith)
    | inr other ↦ rw other (sane i l)
  ]

  -- A cpu is as it was, or was asleep and has been woken.
  abbrev pub WakeFate : (info info' : ℕ → ProcInfo) → ℕ → Type 0
  WakeFate info info' i =
      (info' i ≡ info i)
      ⊎ (((info i).awake ≡ 0) × (info' i ≡ record (info i) { sleep_time = 0; awake = 1 }))

  -- What a run of the outer loop has done to the cpus: woken some, those first that have slept least.
  record Woken (info info' : ℕ → ProcInfo) : Type 0 where
    sane : AllSane info' n
    count : awake_count info' n ≡ min req n
    fates : (i : ℕ) → WakeFate info info' i
    order :
        (i j : ℕ)
        → i < n
        → j < n
        → (info i).awake ≡ 0
        → (info' i).awake ≡ 1
        → (info' j).awake ≡ 0
        → (info i).sleep_time ≤ (info j).sleep_time

  -- With everybody awake the rounds change nothing.
  wake_rounds_idle :
      (info : ℕ → ProcInfo)
      → (wake_scan info req n).wake_up_proc ≡ uint_max
      → (wake_scan info req n).awake_total < req
      → n < uint_max
      → (rounds : ℕ) → wake_rounds rounds req n info ≡ info
  unfolding wake_rounds
  wake_rounds_idle info p t small zero = refl
  wake_rounds_idle info p t small (suc r) = ground (arith, wake_rounds_idle info p t small r)

  wake_rounds_step :
      (rounds : ℕ) (info : ℕ → ProcInfo)
      → (wake_scan info req n).wake_up_proc < n
      → let w = wake_scan info req n in
        wake_rounds (suc rounds) req n info ≡ (
          if leb req (w.awake_total + 1)
          then wake_one w.wake_up_proc info
          else wake_rounds rounds req n (wake_one w.wake_up_proc info))
  unfolding wake_rounds
  wake_rounds_step r info h = ground arith

  Woken-wake_one :
      (info info' : ℕ → ProcInfo) (c : ℕ)
      → (info c).awake ≡ 0
      → ((j : ℕ) → j < n → (info j).awake ≡ 0 → (info c).sleep_time ≤ (info j).sleep_time)
      → Woken (wake_one c info) info'
      → Woken info info'
  unfolding wake_one
  Woken-wake_one info info' c a least w = record {
    sane = w.sane;
    count = w.count;
    fates = λ i. ground (arith, w.fates i);
    order = λ i j li lj ai bi bj. ground (arith, w.order i j, w.fates j, least j);
  }

  wake_rounds-Woken :
      (rounds : ℕ) (info : ℕ → ProcInfo)
      → AllSane info n
      → n < uint_max
      → awake_count info n < req
      → req ≤ awake_count info n + rounds
      → Woken info (wake_rounds rounds req n info)
  wake_rounds-Woken zero info sane small few enough = absurd (omega arith)
  wake_rounds-Woken (suc r) info sane small few enough = elim (wake_scan-Scanned info sane few) [
    | nobody t p u all ↦ rw (wake_rounds_idle info p (omega (arith, t)) small (suc r)) (record {
      sane = sane;
      count = omega (arith, count_in_full (λ i. (info i).awake) n 1 all);
      fates = λ i. inl refl;
      order = λ i j li lj ai bi. absurd (ground arith);
    })
    | sleeper t p s u least ↦
        let c = (wake_scan info req n).wake_up_proc in
        let one_more = wake_one-count info c p s in
        let room = count_in_missing (λ i. (info i).awake) n 1 c p (omega arith) in
        let sane' = wake_one-sane info c sane in
        let first : (j : ℕ)
            → j < n
            → (info j).awake ≡ 0
            → (info c).sleep_time ≤ (info j).sleep_time =
          λ j l e. omega (arith, u, least j l e) in
        rw (wake_rounds_step r info p, t)
          (elim (Bool-cases (leb req (awake_count info n + 1))) [
            | inl enough_now ↦ rw enough_now (
                Woken-wake_one info (wake_one c info) c s first (record {
                  sane = sane';
                  count = ground (arith, one_more, room);
                  fates = λ i. inl refl;
                  order = λ i j li lj ai bi. absurd (ground arith);
                }))
            | inr more ↦ rw more (
                Woken-wake_one info _ c s first (
                  wake_rounds-Woken r (wake_one c info) sane' small (ground (arith, one_more))
                    (omega (arith, one_more))))
          ])
  ]

  -- With each cpu's flags in agreement, and fewer than UINT_MAX cpus, `wake_up_procs` wakes cpus until
  -- `req` are awake, or all are if there are fewer: a cpu is left as it was, or it was asleep and is now
  -- awake, with its sleep time 0 and its awake_time as it was; and no cpu that is woken has
  -- slept longer than one that stays asleep. If enough are awake it changes nothing.
  pub wake_up_procs_lem :
      (info : ℕ → ProcInfo)
      → AllSane info n
      → n < uint_max
      → let info' = wake_up_procs req n info in
        AllSane info' n
        × (awake_count info' n ≡ max (awake_count info n) (min req n))
        × ((i : ℕ) → WakeFate info info' i)
        × ((i j : ℕ)
            → i < n
            → j < n
            → (info i).awake ≡ 0
            → (info' i).awake ≡ 1
            → (info' j).awake ≡ 0
            → (info i).sleep_time ≤ (info j).sleep_time)
        × (req ≤ awake_count info n → info' ≡ info)
  unfolding wake_up_procs
  wake_up_procs_lem info sane small = elim (Bool-cases (leb req (awake_total info n))) [
    | inl enough ↦ rw enough (
      sane,
      ground (arith, awake_total-eq-count info n sane, count_in-le (λ i. (info i).awake) n 1),
      (λ i. inl refl),
      (λ i j li lj ai bi. absurd (ground arith)),
      (λ h. refl),
    )
    | inr few ↦
        let less : awake_count info n < req = ground (arith, awake_total-eq-count info n sane) in
        let w = wake_rounds-Woken req info sane small less (omega arith) in
        rw few (
          w.sane,
          ground (arith, w.count, less, count_in-le (λ i. (info i).awake) n 1),
          w.fates,
          w.order,
          (λ h. absurd (omega (arith, less))),
        )
  ]
