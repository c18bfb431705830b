-- ===== src/Mutate/Proxy.antt =====
-- The list of awake cpus that `retire_procs` makes, and `retire_procs` as a whole.
use seeker_scheduler.Common.{
  ℕ, suc, ◌≤◌, ◌<◌, ◌≡◌, ◌≢◌, refl, ◌⊎◌, inl, inr, false, Bool-cases, leb, for_up, for_up_inv,
  count_in, count_in_mono, arith,
}
use seeker_scheduler.Mutate.{
  ProcInfo, awake_total, Retiring, retire_round, retire_procs, awake_proxy,
}
use seeker_scheduler.Mutate.Wake.{AllSane, awake_count, awake_total-eq-count}
use seeker_scheduler.Mutate.Retire.{Fate, Retired, retire_round-Retired}

-- An array lists the awake cpus among the first `n` in order: a cpu stands behind the awake cpus that
-- have smaller numbers.
abbrev pub ListsAwake : (n : ℕ) → (ℕ → ProcInfo) → (ℕ → ℕ) → Type 0
ListsAwake n info proxy = (c : ℕ) → c < n → (info c).awake ≡ 1 → proxy (awake_count info c) ≡ c

record Listed (info : ℕ → ProcInfo) (m : ℕ) (p : (ℕ → ℕ) × ℕ) : Type 0 where
  next : p.1 ≡ awake_count info m
  lists : ListsAwake m info p.0

awake_proxy-Listed :
    (n : ℕ) (info : ℕ → ProcInfo) (proxy : ℕ → ℕ) → Listed info n (awake_proxy n info proxy)
unfolding awake_proxy count_in
awake_proxy-Listed n info proxy =
    for_up_inv (Listed info) n _ (proxy, 0)
      (record { next = refl; lists = λ c l. absurd (omega arith) })
      (λ m p h v. record {
        next = ground (arith, v.next);
        lists = λ c l a. ground (arith, v.lists c, v.next, rank_lt info c m);
      })
  where
    rank_lt :
        (info : ℕ → ProcInfo) (c m : ℕ)
        → c < m
        → (info c).awake ≡ 1
        → awake_count info c < awake_count info m
    rank_lt info c m l a = ground (arith, count_in_mono (λ i. (info i).awake) (suc c) m 1)

module _ (tasks : ℕ → ℕ) (req n : ℕ) (info : ℕ → ProcInfo) (put_to_sleep proxy : ℕ → ℕ) where
  -- With each cpu's flags in agreement, and more cpus awake than required: `retire_procs` leaves a cpu as it
  -- was, or it was awake without tasks, and is put to sleep and marked. It goes on until the required
  -- number is awake, and not below, or until every cpu that is still awake has tasks; and it lists the
  -- awake ones in order.
  pub retire_procs_lem :
      AllSane info n
      → req < awake_count info n
      → let (info', put', proxy') = retire_procs tasks req n (info, put_to_sleep, proxy) in
        (req ≤ awake_count info' n)
        × ((i : ℕ) → Fate tasks req n info info' put' i)
        × ((awake_count info' n ≡ req) ⊎ ((i : ℕ) → i < n → (info' i).awake ≡ 1 → tasks i ≢ 0))
        × ListsAwake n info' proxy'
  unfolding retire_procs
  retire_procs_lem sane more =
      let t = awake_total-eq-count info n sane in
      let start : Retiring = record {
        info = info;
        put_to_sleep = put_to_sleep;
        awake_total = awake_total info n;
        stopped = false;
      } in
      let v =
        for_up_inv (Retired tasks req n info) n (retire_round tasks req) start
          (record {
            total = t;
            enough = omega (arith, t);
            going = λ _. omega (arith, t);
            fate = λ i. inl refl;
            ahead = λ i l. refl;
            over = λ e. absurd (ground arith);
            busy = λ _ i l. absurd (omega arith);
          })
          (λ m r h v. retire_round-Retired tasks req n info m r h v) in
      let r = for_up n (retire_round tasks req) start in
      let ended : (awake_count r.info n ≡ req)
          ⊎ ((i : ℕ) → i < n → (r.info i).awake ≡ 1 → tasks i ≢ 0) =
        elim (Bool-cases r.stopped) [
          | inl over ↦ inl (omega (arith, v.total, v.over over))
          | inr going ↦ inr (v.busy going)
        ] in
      rw (more_awake t)
        (omega (arith, v.total, v.enough), v.fate, ended, (awake_proxy-Listed n r.info proxy).lists)
    where
      more_awake : awake_total info n ≡ awake_count info n → leb (awake_total info n) req ≡ false
      more_awake t = ground (arith, t, more)

  -- If no more cpus are awake than required it returns at once, before it has listed the awake cpus:
  -- the list keeps what an earlier call, or none, has left in it.
  pub retire_procs_early :
      AllSane info n
      → awake_count info n ≤ req
      → retire_procs tasks req n (info, put_to_sleep, proxy) ≡ (info, put_to_sleep, proxy)
  unfolding retire_procs
  retire_procs_early sane few = ground (arith, awake_total-eq-count info n sane)
