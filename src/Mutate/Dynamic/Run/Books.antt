-- ===== src/Mutate/Dynamic/Run/Books.antt =====
-- What `mem_dynamic_prog` makes of its plan: the counts and masks, and the changes of frequency.
use seeker_scheduler.Common.{
  ℕ, suc, ◌+◌, ◌%◌, ◌^◌, ◌≤◌, ◌<◌, ◌≡◌, ◌≢◌, refl, ap, ◌∙◌, sym, inl, inr, Bool-cases, true, false,
  ltb, ◌==◌, ◌&&◌, if◌then◌else◌, pos, update, for_up, for_up_inv, zero, count_in, count_in-ext,
  arith,
}
use seeker_scheduler.Kernel.{Cpumask}
use seeker_scheduler.States.{Sys}
use seeker_scheduler.States.Counts.{inform-Informed}
use seeker_scheduler.Mutate.{ProcInfo, Env, request_freq}
use seeker_scheduler.Mutate.Greedy.{Auction}
use seeker_scheduler.Mutate.Greedy.Run.{Provision, provide_round, provide, commit}
use seeker_scheduler.Mutate.Greedy.Run.Books.{seat, commit-provide, commit-cur}
use seeker_scheduler.Mutate.Dynamic.Run.{
  Arrays, place_round, place_awake, turn, turns, plan, mem_dynamic_prog,
}

-- The same plan in the greedy mutator's terms: the cpus awake are the ones that are selected.
abbrev as_auction : Arrays → Auction
as_auction a = record {
  demand = a.demand;
  selected_cpus = λ i. if (a.info i).awake == 0 then 1 else 0;
  new_cpu_state = a.new_cpu_state;
  delta = pos 0;
  total_demand = pos 0;
  total_selected_cpus = 0;
  stopped = false;
}

-- The place of a cpu in the new books: one more than its new state, or 0 if it sleeps.
abbrev pub place_of : Arrays → ℕ → ℕ
place_of a i = if (a.info i).awake == 0 then 0 else suc (a.new_cpu_state i)

module _ (K : Cpumask) (a : Arrays) where
  round_same :
      (i : ℕ) (p : Provision K.Mask)
      → (provide_round K (as_auction a) i p).new_states ≡ place_round K a i p.new_states
  unfolding place_round provide_round
  round_same i p = elim (Bool-cases ((a.info i).awake == 0)) [
    | inl asleep ↦ rw asleep refl
    | inr awake ↦ rw awake refl
  ]

  provide_place : (n : ℕ) → (provide K n (as_auction a)).new_states ≡ place_awake K n a
  unfolding place_awake provide for_up
  provide_place zero = refl
  provide_place (suc n) =
      round_same n (provide K n (as_auction a)) ∙ ap (place_round K a n) (provide_place n)

  seat_place : (i k : ℕ) → (seat (as_auction a) i == k) ≡ (place_of a i == k)
  seat_place i k = ground arith

  -- For no more cpus than NR_CPUS, the critical section writes consistent books for the cpus that are
  -- awake: each state's count and mask hold those whose new state it is, and no others; and every
  -- demand is 0 again.
  pub commit-place :
      (n : ℕ) (s : Sys K.Mask) (k : ℕ)
      → n ≤ K.nr_cpus
      → k < s.total_states
      → let t = commit K (place_awake K n a) s in
        ((t.states k).cpus ≡ pos (count_in (place_of a) n (suc k)))
        × ((t.states k).demand ≡ pos 0)
        × ((c : ℕ)
            → c < K.nr_cpus
            → K.isset c (t.states k).cpumask ≡ (ltb c n && place_of a c == suc k))
        × (t.cur_cpu_state ≡ s.cur_cpu_state)
  commit-place n s k h l =
      let (c, d, m, u) = commit-provide K (as_auction a) n s k h l in
      rw (sym (provide_place n)) (
        c
            ∙ ap pos
                (count_in-ext (seat (as_auction a)) (place_of a) n (suc k) (λ i li. ground arith)),
        d,
        λ i li. m i li ∙ ap (λ b. ltb i n && b) (seat_place i (suc k)),
        u,
      )

  commit_place-cur :
      (n : ℕ) (s : Sys K.Mask) → (commit K (place_awake K n a) s).cur_cpu_state ≡ s.cur_cpu_state
  commit_place-cur n s = rw (sym (provide_place n)) (commit-cur K (as_auction a) n s)

module _ (K : Cpumask) (env : Env) (a : Arrays) (accepts : (c k : ℕ) → env.accepts c k ≡ true) where
  -- Where a cpu is after its turn.
  abbrev pub turned : (cur : ℕ → ℕ) → ℕ → ℕ
  turned cur i =
      if (a.info i).awake == 0
      then if a.put_to_sleep i == 1 then 0 else cur i
      else a.new_cpu_state i

  request_cur :
      (cpu state : ℕ) (t : Sys K.Mask)
      → (request_freq K env cpu state t).cur_cpu_state ≡ update t.cur_cpu_state cpu state
  unfolding request_freq
  request_cur cpu state t =
      rw (accepts cpu state) (inform-Informed K t cpu state env.now env.hz env.log_open).cur

  -- The first call of a turn.
  sleep_cur :
      (i j : ℕ) (t : Sys K.Mask)
      → (if a.put_to_sleep i == 1 then request_freq K env i 0 t else t).cur_cpu_state j
        ≡ (if i == j && a.put_to_sleep i == 1 then 0 else t.cur_cpu_state j)
  sleep_cur i j t = elim (Bool-cases (a.put_to_sleep i == 1)) [
    | inl put ↦ rw (put, request_cur i 0 t) (ground arith)
    | inr not_put ↦ rw not_put (ground arith)
  ]

  settle_cur :
      (i j : ℕ) (t : Sys K.Mask)
      → (if a.new_cpu_state i == t.cur_cpu_state i
            then t
            else request_freq K env i (a.new_cpu_state i) t).cur_cpu_state
          j
        ≡ (if i == j then a.new_cpu_state i else t.cur_cpu_state j)
  settle_cur i j t = elim (Bool-cases (a.new_cpu_state i == t.cur_cpu_state i)) [
    | inl there ↦ rw there (ground arith)
    | inr away ↦ rw (away, request_cur i (a.new_cpu_state i) t) (ground arith)
  ]

  turn_cur :
      (i j : ℕ) (t : Sys K.Mask) (info : ℕ → ProcInfo)
      → info i ≡ a.info i
      → (turn K env a i (t, info)).0.cur_cpu_state j
        ≡ (if i == j then turned t.cur_cpu_state i else t.cur_cpu_state j)
  unfolding turn
  turn_cur i j t info e = elim (Bool-cases ((a.info i).awake == 0)) [
    | inl asleep ↦ rw (e, asleep) (ground (arith, sleep_cur i j t))
    | inr awake ↦
        rw (e, awake)
          (settle_cur i j (if a.put_to_sleep i == 1 then request_freq K env i 0 t else t)
            ∙ ground (arith, sleep_cur i j t))
  ]

  older : ProcInfo → ProcInfo
  older p = record p { sleep_time = (p.sleep_time + 1) % 2 ^ 32 }

  turn_info :
      (i : ℕ) (t : Sys K.Mask) (info : ℕ → ProcInfo)
      → (turn K env a i (t, info)).1
        ≡ (if (info i).awake == 0 then update info i (older (info i)) else info)
  unfolding turn older
  turn_info i t info = elim (Bool-cases ((info i).awake == 0)) [
    | inl asleep ↦ rw asleep refl
    | inr awake ↦ rw awake refl
  ]

  turn_info_other :
      (i j : ℕ) (t : Sys K.Mask) (info : ℕ → ProcInfo)
      → i ≢ j
      → (turn K env a i (t, info)).1 j ≡ info j
  turn_info_other i j t info ne = ap (λ f. f j) (turn_info i t info) ∙ ground arith

  turn_info_same :
      (i : ℕ) (t : Sys K.Mask) (info : ℕ → ProcInfo)
      → (info i).awake ≡ 0
      → (turn K env a i (t, info)).1 i ≡ older (info i)
  turn_info_same i t info e = ap (λ f. f i) (turn_info i t info) ∙ ground arith

  -- The loop after `m` cpus.
  record Turned (s : Sys K.Mask) (m : ℕ) (p : Sys K.Mask × (ℕ → ProcInfo)) : Type 0 where
    done : (i : ℕ) → i < m → p.0.cur_cpu_state i ≡ turned s.cur_cpu_state i
    ahead : (i : ℕ) → m ≤ i → p.0.cur_cpu_state i ≡ s.cur_cpu_state i
    slept :
        (i : ℕ) → i < m → (a.info i).awake ≡ 0 → (p.1 i).sleep_time ≡ (older (a.info i)).sleep_time
    same : (i : ℕ) → m ≤ i → p.1 i ≡ a.info i

  turn-Turned :
      (s : Sys K.Mask) (m : ℕ) (t : Sys K.Mask) (info : ℕ → ProcInfo)
      → Turned s m (t, info)
      → Turned s (suc m) (turn K env a m (t, info))
  turn-Turned s m t info v =
      let here = v.same m (omega arith) in
      record {
        done = λ i l. turn_cur m i t info here ∙ ground (arith, v.done i, v.ahead m);
        ahead = λ i l. turn_cur m i t info here ∙ ground (arith, v.ahead i);
        slept = λ i l h. elim (Bool-cases (m == i)) [
          | inl now ↦
              let q : i ≡ m = ground arith in
              rw q (
                ap (λ p. p.sleep_time)
                  (turn_info_same m t info
                      (ap (λ p. p.awake) here ∙ ap (λ c. (a.info c).awake) (sym q) ∙ h)
                    ∙ ap older here))
          | inr before ↦
              ap (λ p. p.sleep_time) (turn_info_other m i t info (ground arith))
              ∙ v.slept i (ground arith) h
        ];
        same = λ i l. turn_info_other m i t info (omega arith) ∙ v.same i (omega arith);
      }

  turns-Turned : (n : ℕ) (s : Sys K.Mask) → Turned s n (turns K env n a (s, a.info))
  unfolding turns
  turns-Turned n s =
      for_up_inv (Turned s) n (turn K env a) (s, a.info)
        (record {
          done = λ i l. absurd (omega arith);
          ahead = λ i l. refl;
          slept = λ i l h. absurd (omega arith);
          same = λ i l. refl;
        })
        (λ m (t, info) l v. turn-Turned s m t info v)

-- If seeker_cpufreq accepts every change, `mem_dynamic_prog` leaves each cpu that its plan keeps awake in
-- the state that the plan gives it, each that is marked as put to sleep in state 0, and each other one where it was; and
-- a cpu that is not awake has slept for one interval more.
pub mem_dynamic_prog_lem :
    (K : Cpumask) (env : Env) (running : ℕ → ℕ) (delta : ℕ) (s : Sys K.Mask) (a : Arrays)
    (count i : ℕ)
    → ((c k : ℕ) → env.accepts c k ≡ true)
    → i < s.total_online_cpus
    → let (t, after, count', entry) = mem_dynamic_prog K env running delta (s, a, count) in
      let p = plan running delta s a in
      (t.cur_cpu_state i ≡ (
        if (p.info i).awake == 0
        then if p.put_to_sleep i == 1 then 0 else s.cur_cpu_state i
        else p.new_cpu_state i))
      × ((p.info i).awake ≡ 0 → (after.info i).sleep_time ≡ ((p.info i).sleep_time + 1) % 2 ^ 32)
unfolding mem_dynamic_prog older
mem_dynamic_prog_lem K env running delta s a count i accepts l =
    let p = plan running delta s a in
    let n = s.total_online_cpus in
    let v = turns-Turned K env p accepts n (commit K (place_awake K n p) s) in
    (v.done i l ∙ ap (λ f. turned K env p accepts f i) (commit_place-cur K p n s), v.slept i l)
