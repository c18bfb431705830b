-- ===== src/Mutate/Greedy/Run/Switch.antt =====
-- The calls of `set_freq` that carry out the auction's result, and what they do to the counts.
use seeker_scheduler.Common.{
  ℕ, suc, ◌+◌, ◌≤◌, ◌<◌, ◌≡◌, ◌≢◌, refl, ap, ◌∙◌, sym, subst, inl, inr, Bool-cases, true, ◌==◌,
  if◌then◌else◌, ℤ, pos, ◌+ℤ◌, ◌-ℤ◌, pos_part, neg_part, for_up_inv, count_in, one_if_eq, arith,
  ==_iff, eq_of_parts, +ℤ_parts, -ℤ_parts,
}
use seeker_scheduler.Kernel.{Cpumask}
use seeker_scheduler.States.{Sys}
use seeker_scheduler.States.Counts.{Informed, inform-Informed, stay-Informed}
use seeker_scheduler.Mutate.{ProcInfo, Env, request_freq}
use seeker_scheduler.Mutate.Greedy.{Auction}
use seeker_scheduler.Mutate.Greedy.Run.{provide, commit, switch_cpu, carry_out}
use seeker_scheduler.Mutate.Greedy.Run.Books.{seat, commit-provide, commit-cur}

-- Where a cpu is sent: a selected one to its new state, one that falls asleep to state 0; one that
-- sleeps stays.
abbrev pub target : Auction → (ℕ → ProcInfo) → (cur : ℕ → ℕ) → ℕ → ℕ
target a info cur i =
    if a.selected_cpus i == 0 then a.new_cpu_state i else if (info i).awake == 0 then cur i else 0

module _ (K : Cpumask) (env : Env) (a : Auction)
    (accepts : (c k : ℕ) → env.accepts c k ≡ true) where
  request_freq-Informed :
      (cpu state : ℕ) (t : Sys K.Mask) → Informed K cpu state t (request_freq K env cpu state t)
  unfolding request_freq
  request_freq-Informed cpu state t =
      rw (accepts cpu state) (inform-Informed K t cpu state env.now env.hz env.log_open)

  settle-Informed :
      (cpu state : ℕ) (t : Sys K.Mask)
      → Informed K cpu state t
          (if state == t.cur_cpu_state cpu then t else request_freq K env cpu state t)
  settle-Informed cpu state t = elim (Bool-cases (state == t.cur_cpu_state cpu)) [
    | inl there ↦ rw there (stay-Informed K t cpu state (sym ((==_iff _ _).0 there)))
    | inr away ↦ rw away (request_freq-Informed cpu state t)
  ]

  sleep-Informed :
      (cpu : ℕ) (t : Sys K.Mask)
      → Informed K cpu 0 t (if t.cur_cpu_state cpu == 0 then t else request_freq K env cpu 0 t)
  sleep-Informed cpu t = elim (Bool-cases (t.cur_cpu_state cpu == 0)) [
    | inl there ↦ rw there (stay-Informed K t cpu 0 ((==_iff _ _).0 there))
    | inr away ↦ rw away (request_freq-Informed cpu 0 t)
  ]

  switch_cpu-Informed :
      (i : ℕ) (t : Sys K.Mask) (info : ℕ → ProcInfo)
      → Informed K i (target a info t.cur_cpu_state i) t (switch_cpu K env a i (t, info)).0
  unfolding switch_cpu
  switch_cpu-Informed i t info = elim (Bool-cases (a.selected_cpus i == 0)) [
    | inl used ↦ rw used (settle-Informed i (a.new_cpu_state i) t)
    | inr unused ↦ elim (Bool-cases ((info i).awake == 0)) [
      | inl asleep ↦ rw (unused, asleep) (stay-Informed K t i (t.cur_cpu_state i) refl)
      | inr awake ↦ rw (unused, awake) (sleep-Informed i t)
    ]
  ]

  switch_cpu-info :
      (i j : ℕ) (t : Sys K.Mask) (info : ℕ → ProcInfo)
      → i ≢ j
      → (switch_cpu K env a i (t, info)).1 j ≡ info j
  unfolding switch_cpu
  switch_cpu-info i j t info ne = ground arith

  -- The loop after `m` cpus.
  record Switched (s : Sys K.Mask) (info : ℕ → ProcInfo) (m : ℕ) (p : Sys K.Mask × (ℕ → ProcInfo))
      : Type 0 where
    total : p.0.total_states ≡ s.total_states
    done : (i : ℕ) → i < m → p.0.cur_cpu_state i ≡ target a info s.cur_cpu_state i
    ahead : (i : ℕ) → m ≤ i → p.0.cur_cpu_state i ≡ s.cur_cpu_state i
    same : (i : ℕ) → m ≤ i → p.1 i ≡ info i
    cpus :
        (k : ℕ)
        → (p.0.states k).cpus
          ≡ (s.states k).cpus
            +ℤ pos (count_in (target a info s.cur_cpu_state) m k)
            -ℤ pos (count_in s.cur_cpu_state m k)

  add_counts :
      (x y : ℤ) (p q u v : ℕ)
      → x ≡ y +ℤ pos p -ℤ pos q
      → x +ℤ pos u -ℤ pos v ≡ y +ℤ pos (u + p) -ℤ pos (v + q)
  add_counts x y p q u v e = eq_of_parts (x +ℤ pos u -ℤ pos v) (y +ℤ pos (u + p) -ℤ pos (v + q)) (
      omega (
        arith,
        +ℤ_parts x (pos u),
        -ℤ_parts (x +ℤ pos u) (pos v),
        +ℤ_parts y (pos (u + p)),
        -ℤ_parts (y +ℤ pos (u + p)) (pos (v + q)),
        +ℤ_parts y (pos p),
        -ℤ_parts (y +ℤ pos p) (pos q),
        ap pos_part e,
        ap neg_part e,
      ))

  switch_cpu-Switched :
      (s : Sys K.Mask) (info : ℕ → ProcInfo) (m : ℕ) (t : Sys K.Mask) (info' : ℕ → ProcInfo)
      → Switched s info m (t, info')
      → Switched s info (suc m) (switch_cpu K env a m (t, info'))
  unfolding count_in
  switch_cpu-Switched s info m t info' v =
      let n = switch_cpu-Informed m t info' in
      let goal = target a info s.cur_cpu_state m in
      let here : target a info' t.cur_cpu_state m ≡ goal =
        rw (v.same m (omega arith), v.ahead m (omega arith)) refl in
      record {
        total = n.total ∙ v.total;
        done = λ i l. rw (n.cur, here) (ground (arith, v.done i));
        ahead = λ i l. rw (n.cur, here) (ground (arith, v.ahead i));
        same = λ i l. switch_cpu-info m i t info' (ground arith) ∙ v.same i (omega arith);
        cpus = λ k.
            rw (n.cpus k, here, v.ahead m (omega arith))
              (add_counts (t.states k).cpus (s.states k).cpus _ _ (one_if_eq goal k)
                (one_if_eq (s.cur_cpu_state m) k) (v.cpus k));
      }

  carry_out-Switched :
      (s : Sys K.Mask) (info : ℕ → ProcInfo) (n : ℕ)
      → Switched s info n (carry_out K env n a (s, info))
  unfolding carry_out count_in
  carry_out-Switched s info n =
      for_up_inv (Switched s info) n (switch_cpu K env a) (s, info)
        (record {
          total = refl;
          done = λ i l. absurd (omega arith);
          ahead = λ i l. refl;
          same = λ i l. refl;
          cpus = λ k. no_change (s.states k).cpus;
        })
        (λ m (t, info') l v. switch_cpu-Switched s info m t info' v)
    where
      no_change : (x : ℤ) → x ≡ x +ℤ pos 0 -ℤ pos 0
      no_change x =
          eq_of_parts x (x +ℤ pos 0 -ℤ pos 0)
            (omega (arith, +ℤ_parts x (pos 0), -ℤ_parts (x +ℤ pos 0) (pos 0)))

  -- If seeker_cpufreq accepts every change, each cpu ends in the state that the auction gave it, in
  -- state 0 if it falls asleep, and where it was if it sleeps already. But each state's count, already right for the selected cpus, gains all
  -- the cpus that are in it now and loses all that were in it before: a second time over.
  pub commit-carry_out :
      (s : Sys K.Mask) (info : ℕ → ProcInfo) (n : ℕ)
      → n ≤ K.nr_cpus
      → let t = (carry_out K env n a (commit K (provide K n a).new_states s, info)).0 in
        ((i : ℕ) → i < n → t.cur_cpu_state i ≡ target a info s.cur_cpu_state i)
        × ((k : ℕ)
            → k < s.total_states
            → (t.states k).cpus
              ≡ pos (count_in (seat a) n (suc k))
                +ℤ pos (count_in (target a info s.cur_cpu_state) n k)
                -ℤ pos (count_in s.cur_cpu_state n k))
  commit-carry_out s info n h =
      let s' = commit K (provide K n a).new_states s in
      let v = carry_out-Switched s' info n in
      let e : s'.cur_cpu_state ≡ s.cur_cpu_state = commit-cur K a n s in
      (
        subst
            (λ f.
              (i : ℕ)
              → i < n
              → (carry_out K env n a (s', info)).0.cur_cpu_state i ≡ target a info f i)
            e v.done,
        λ k l.
            subst
              (λ f.
                ((carry_out K env n a (s', info)).0.states k).cpus
                ≡ (s'.states k).cpus
                  +ℤ pos (count_in (target a info f) n k)
                  -ℤ pos (count_in f n k))
              e (v.cpus k)
            ∙ ap
                (λ x.
                  x
                  +ℤ pos (count_in (target a info s.cur_cpu_state) n k)
                  -ℤ pos (count_in s.cur_cpu_state n k))
                (commit-provide K a n s k h l).0,
      )
