-- ===== src/Mutate/Retire.antt =====
-- The loop of `retire_procs` that puts cpus to sleep.
use seeker_scheduler.Common.{
  ℕ, suc, ◌-◌, ◌≤◌, ◌<◌, ◌≡◌, ◌≢◌, ◌⊎◌, inl, inr, true, false, Bool-cases, leb, ◌==◌, update, ◌&&◌,
  count_in-update_lt, count_in-ext, one_if_eq, arith,
}
use seeker_scheduler.Mutate.{ProcInfo, Retiring, retire_round}
use seeker_scheduler.Mutate.Wake.{awake_count}

abbrev pub retired_info : ProcInfo
retired_info = record { sleep_time = 1; awake = 0; awake_time = 0 }

module _ (tasks : ℕ → ℕ) (req n : ℕ) (info : ℕ → ProcInfo) where
  -- A cpu is as it was, or was awake without tasks and has been put to sleep and marked.
  abbrev pub Fate : (ℕ → ProcInfo) → (ℕ → ℕ) → ℕ → Type 0
  Fate info' put i =
      (info' i ≡ info i)
      ⊎ (((info i).awake ≡ 1) × (tasks i ≡ 0) × (info' i ≡ retired_info) × (put i ≡ 1))

  -- The loop after `m` cpus.
  pub record Retired (m : ℕ) (r : Retiring) : Type 0 where
    pub total : r.awake_total ≡ awake_count r.info n
    pub enough : req ≤ r.awake_total
    pub going : r.stopped ≡ false → req < r.awake_total
    pub fate : (i : ℕ) → Fate r.info r.put_to_sleep i
    pub ahead : (i : ℕ) → m ≤ i → r.info i ≡ info i
    pub over : r.stopped ≡ true → r.awake_total ≡ req
    pub busy : r.stopped ≡ false → (i : ℕ) → i < m → (r.info i).awake ≡ 1 → tasks i ≢ 0

  retired-count :
      (i : ℕ) (info' : ℕ → ProcInfo)
      → i < n
      → (info' i).awake ≡ 1
      → suc (awake_count (update info' i retired_info) n) ≡ awake_count info' n
  retired-count i info' h a = omega (
    arith,
    count_in-ext (λ j. (update info' i retired_info j).awake) (update (λ j. (info' j).awake) i 0) n
        1 (λ j l. ground arith),
    count_in-update_lt (λ j. (info' j).awake) n 1 i 0 h,
    one_of_one (info' i).awake a,
  )
    where
      one_of_one : (a : ℕ) → a ≡ 1 → (one_if_eq a 1 ≡ 1) × (one_if_eq 0 1 ≡ 0)
      one_of_one a e = ground arith

  -- The three ways through a round.
  abbrev retire_at : ℕ → Retiring → Retiring
  retire_at m r = record {
    info = update r.info m retired_info;
    put_to_sleep = update r.put_to_sleep m 1;
    awake_total = r.awake_total - 1;
    stopped = leb (r.awake_total - 1) req;
  }

  abbrev pass_at : ℕ → Retiring → Retiring
  pass_at m r = record r {
    put_to_sleep = update r.put_to_sleep m 0;
    stopped = leb r.awake_total req;
  }

  round_over : (m : ℕ) (r : Retiring) → r.stopped ≡ true → retire_round tasks req m r ≡ r
  unfolding retire_round
  round_over m r e = ground arith

  round_idle :
      (m : ℕ) (r : Retiring)
      → r.stopped ≡ false
      → (r.info m).awake ≡ 1
      → tasks m ≡ 0
      → retire_round tasks req m r ≡ retire_at m r
  unfolding retire_round
  round_idle m r e a t = ground arith

  round_busy :
      (m : ℕ) (r : Retiring)
      → r.stopped ≡ false
      → ((r.info m).awake == 1 && tasks m == 0) ≡ false
      → retire_round tasks req m r ≡ pass_at m r
  unfolding retire_round
  round_busy m r e b = ground arith

  round_idle-Retired :
      (m : ℕ) (r : Retiring)
      → m < n
      → r.stopped ≡ false
      → (r.info m).awake ≡ 1
      → tasks m ≡ 0
      → Retired m r
      → Retired (suc m) (retire_at m r)
  round_idle-Retired m r h going a t v =
      let less = retired-count m r.info h a in
      let more = v.going going in
      record {
        total = omega (arith, v.total, less);
        enough = omega (arith, v.total, less);
        going = λ e. ground (arith, v.total, less);
        fate = λ i. elim (Bool-cases (m == i)) [
          | inl same ↦ ground (arith, v.ahead m (omega arith))
          | inr other ↦ ground (arith, v.fate i)
        ];
        ahead = λ i l. ground (arith, v.ahead i);
        over = λ e. ground (arith, v.total, less);
        busy = λ e i l b. ground (arith, v.busy going i);
      }

  round_busy-Retired :
      (m : ℕ) (r : Retiring)
      → r.stopped ≡ false
      → ((r.info m).awake == 1 && tasks m == 0) ≡ false
      → Retired m r
      → Retired (suc m) (pass_at m r)
  round_busy-Retired m r going passed v = record {
    total = v.total;
    enough = v.enough;
    going = λ e. ground (arith, v.going going);
    fate = λ i. ground (arith, v.fate i, v.ahead i);
    ahead = λ i l. v.ahead i (omega arith);
    over = λ e. ground (arith, v.enough);
    busy = λ e i l a z. elim (Bool-cases (m == i)) [
      | inl same ↦ ground arith
      | inr other ↦ v.busy going i (ground arith) a z
    ];
  }

  pub retire_round-Retired :
      (m : ℕ) (r : Retiring) → m < n → Retired m r → Retired (suc m) (retire_round tasks req m r)
  retire_round-Retired m r h v = elim (Bool-cases r.stopped) [
    | inl over ↦ rw (round_over m r over) (record {
      total = v.total;
      enough = v.enough;
      going = v.going;
      fate = v.fate;
      ahead = λ i l. v.ahead i (omega arith);
      over = v.over;
      busy = λ e. absurd (ground arith);
    })
    | inr going ↦ elim (Bool-cases ((r.info m).awake == 1 && tasks m == 0)) [
      | inl idle ↦
          let a : (r.info m).awake ≡ 1 = ground arith in
          let t : tasks m ≡ 0 = ground arith in
          rw (round_idle m r going a t) (round_idle-Retired m r h going a t v)
      | inr busy ↦ rw (round_busy m r going busy) (round_busy-Retired m r going busy v)
    ]
  ]
