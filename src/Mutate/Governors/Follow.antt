-- ===== src/Mutate/Governors/Follow.antt =====
-- The books and the cpus' states after a run of the ondemand or the conservative mutator.
use seeker_scheduler.Common.{
  ℕ, suc, min, ◌+◌, ◌-◌, ◌≤◌, ◌<◌, ◌≡◌, refl, ◌∙◌, inl, inr, Bool-cases, true, ltb, ◌==◌, ==_iff,
  if◌then◌else◌, for_up_inv, arith,
}
use seeker_scheduler.Kernel.{Cpumask}
use seeker_scheduler.Load.{get_cpu_load, get_cpu_load_local, get_cpu_load_frame}
use seeker_scheduler.States.{Sys}
use seeker_scheduler.States.Invariant.{Consistent, inform-Consistent}
use seeker_scheduler.States.Counts.{Informed, inform-Informed, stay-Informed}
use seeker_scheduler.Mutate.{Env, request_freq}
use seeker_scheduler.Mutate.Governors.{
  govern_cpu, govern, ondemand, conservative, ondemand_state, conservative_state,
}

module _ (K : Cpumask) (env : Env) (total_time : ℕ) (idle : ℕ → ℕ)
    (pick : (total_states load cur : ℕ) → ℕ)
    (in_range : (total load cur : ℕ) → cur < total → pick total load cur < total) where
  -- A round keeps the books.
  request_freq-Consistent :
      (cpu state : ℕ) (s : Sys K.Mask)
      → cpu < s.total_online_cpus
      → state < s.total_states
      → Consistent K s
      → Consistent K (request_freq K env cpu state s)
  unfolding request_freq
  request_freq-Consistent cpu state s l h b = elim (Bool-cases (env.accepts cpu state)) [
    | inl yes_it_did ↦
        rw yes_it_did (inform-Consistent K env.now env.hz env.log_open cpu state s l h b).0
    | inr refused ↦ rw refused b
  ]

  request_freq_frame :
      (cpu state : ℕ) (s : Sys K.Mask)
      → ((request_freq K env cpu state s).total_states ≡ s.total_states)
        × ((request_freq K env cpu state s).total_online_cpus ≡ s.total_online_cpus)
  unfolding request_freq
  request_freq_frame cpu state s = elim (Bool-cases (env.accepts cpu state)) [
    | inl yes_it_did ↦
        let i = inform-Informed K s cpu state env.now env.hz env.log_open in
        rw yes_it_did (i.total, i.online)
    | inr refused ↦ rw refused (refl, refl)
  ]

  record Kept (s : Sys K.Mask) (p : Sys K.Mask × (ℕ → ℕ)) : Type 0 where
    books : Consistent K p.0
    total : p.0.total_states ≡ s.total_states
    online : p.0.total_online_cpus ≡ s.total_online_cpus

  govern_cpu-Kept :
      (s : Sys K.Mask) (m : ℕ) (t : Sys K.Mask) (prev : ℕ → ℕ)
      → m < s.total_online_cpus
      → Kept s (t, prev)
      → Kept s (govern_cpu K env total_time idle pick m (t, prev))
  unfolding govern_cpu
  govern_cpu-Kept s m t prev l v =
      let new = pick t.total_states (get_cpu_load total_time idle m prev).0 (t.cur_cpu_state m) in
      let lm : m < t.total_online_cpus = omega (arith, v.online) in
      let h : new < t.total_states =
        in_range t.total_states (get_cpu_load total_time idle m prev).0 (t.cur_cpu_state m)
          (v.books.ranged m lm) in
      elim (Bool-cases (t.cur_cpu_state m == new)) [
        | inl there ↦ rw there (record { books = v.books; total = v.total; online = v.online })
        | inr away ↦ rw away (record {
          books = request_freq-Consistent m new t lm h v.books;
          total = (request_freq_frame m new t).0 ∙ v.total;
          online = (request_freq_frame m new t).1 ∙ v.online;
        })
      ]

  pub govern-Consistent :
      (s : Sys K.Mask) (prev : ℕ → ℕ)
      → Consistent K s
      → Consistent K (govern K env total_time idle pick (s, prev)).0
  unfolding govern
  govern-Consistent s prev b =
      (for_up_inv (λ m p. Kept s p) s.total_online_cpus (govern_cpu K env total_time idle pick)
        (s, prev) (record { books = b; total = refl; online = refl })
        (λ m (t, q) l v. govern_cpu-Kept s m t q l v)).books

  -- The loop after `m` cpus, if every change is accepted.
  record Follows (s : Sys K.Mask) (prev : ℕ → ℕ) (m : ℕ) (p : Sys K.Mask × (ℕ → ℕ)) : Type 0 where
    total : p.0.total_states ≡ s.total_states
    done :
        (i : ℕ)
        → i < m
        → p.0.cur_cpu_state i
          ≡ pick s.total_states (get_cpu_load total_time idle i prev).0 (s.cur_cpu_state i)
    ahead : (i : ℕ) → m ≤ i → (p.0.cur_cpu_state i ≡ s.cur_cpu_state i) × (p.1 i ≡ prev i)

  govern_cpu-Informed :
      ((c k : ℕ) → env.accepts c k ≡ true)
      → (m : ℕ) (t : Sys K.Mask) (prev : ℕ → ℕ)
      → Informed K m
          (pick t.total_states (get_cpu_load total_time idle m prev).0 (t.cur_cpu_state m))
          t
          (govern_cpu K env total_time idle pick m (t, prev)).0
  unfolding govern_cpu request_freq
  govern_cpu-Informed accepts m t prev =
      let new = pick t.total_states (get_cpu_load total_time idle m prev).0 (t.cur_cpu_state m) in
      elim (Bool-cases (t.cur_cpu_state m == new)) [
        | inl there ↦ rw there (stay-Informed K t m new ((==_iff _ _).0 there))
        | inr away ↦
            rw (away, accepts m new) (inform-Informed K t m new env.now env.hz env.log_open)
      ]

  govern_cpu-prev :
      (m : ℕ) (t : Sys K.Mask) (prev : ℕ → ℕ)
      → (govern_cpu K env total_time idle pick m (t, prev)).1
        ≡ (get_cpu_load total_time idle m prev).1
  unfolding govern_cpu
  govern_cpu-prev m t prev = refl

  govern_cpu-Follows :
      (s : Sys K.Mask) (prev : ℕ → ℕ) (m : ℕ) (t : Sys K.Mask) (q : ℕ → ℕ)
      → ((c k : ℕ) → env.accepts c k ≡ true)
      → Follows s prev m (t, q)
      → Follows s prev (suc m) (govern_cpu K env total_time idle pick m (t, q))
  govern_cpu-Follows s prev m t q accepts v =
      let n = govern_cpu-Informed accepts m t q in
      let (c, r) = v.ahead m (omega arith) in
      record {
        total = n.total ∙ v.total;
        done = λ i l.
            rw (n.cur, v.total, c, get_cpu_load_local total_time m idle q prev r)
              (elim (Bool-cases (m == i)) [
                | inl here ↦ rw (here, (==_iff m i).0 here) refl
                | inr past ↦ rw past (v.done i (ground arith))
              ]);
        ahead = λ i l. (
          rw n.cur (ground (arith, v.ahead i)),
          rw (govern_cpu-prev m t q) (
              get_cpu_load_frame total_time m i idle q (ground arith)
              ∙ (v.ahead i (omega arith)).1),
        );
      }

  pub govern_follows :
      (s : Sys K.Mask) (prev : ℕ → ℕ) (i : ℕ)
      → ((c k : ℕ) → env.accepts c k ≡ true)
      → i < s.total_online_cpus
      → (govern K env total_time idle pick (s, prev)).0.cur_cpu_state i
        ≡ pick s.total_states (get_cpu_load total_time idle i prev).0 (s.cur_cpu_state i)
  unfolding govern
  govern_follows s prev i accepts l =
      (for_up_inv (Follows s prev) s.total_online_cpus (govern_cpu K env total_time idle pick)
          (s, prev)
          (record { total = refl; done = λ j h. absurd (omega arith); ahead = λ j h. (refl, refl) })
          (λ m (t, q) h v. govern_cpu-Follows s prev m t q accepts v)).done
        i l

module _ (K : Cpumask) (env : Env) (total_time : ℕ) (idle : ℕ → ℕ) (s : Sys K.Mask) (prev : ℕ → ℕ)
    (books : Consistent K s) where
  -- From consistent books both mutators lead to consistent books, whichever changes seeker_cpufreq
  -- accepts: each state's count and mask agree with the cpus' states again.
  pub governors-Consistent :
      Consistent K (ondemand K env total_time idle (s, prev)).0
      × Consistent K (conservative K env total_time idle (s, prev)).0
  unfolding ondemand conservative
  governors-Consistent = (
    govern-Consistent K env total_time idle ondemand_state (λ total load cur l. ground arith) s prev
        books,
    govern-Consistent K env total_time idle conservative_state (λ total load cur l. ground arith) s
        prev books,
  )

  -- From consistent books, if seeker_cpufreq accepts every change, an online cpu with a load above 7 eighths goes to the top
  -- state under ondemand and one state up, if there is one, under conservative. With any lower load it
  -- goes to state 0, and one state down if there is one.
  pub governors_follow :
      (i : ℕ)
      → ((c k : ℕ) → env.accepts c k ≡ true)
      → i < s.total_online_cpus
      → let load = (get_cpu_load total_time idle i prev).0 in
        ((ondemand K env total_time idle (s, prev)).0.cur_cpu_state i
          ≡ (if ltb 7 load then s.total_states - 1 else 0))
        × ((conservative K env total_time idle (s, prev)).0.cur_cpu_state i ≡ (
            if ltb 7 load
            then min (s.cur_cpu_state i + 1) (s.total_states - 1)
            else s.cur_cpu_state i - 1))
  unfolding ondemand conservative
  governors_follow i accepts l = (
    govern_follows K env total_time idle ondemand_state (λ total load cur l. ground arith) s prev i
        accepts l,
    govern_follows K env total_time idle conservative_state (λ total load cur l. ground arith) s
          prev i accepts l
        ∙ saturates (get_cpu_load total_time idle i prev).0 (s.cur_cpu_state i) s.total_states
            (books.ranged i l),
  )
    where
      saturates :
          (load cur total : ℕ)
          → cur < total
          → conservative_state total load cur
            ≡ (if ltb 7 load then min (cur + 1) (total - 1) else cur - 1)
      saturates load cur total h = ground arith
