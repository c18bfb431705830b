-- ===== src/States/Init/Booking.antt =====
-- The books that `init_cpu_states` starts.
use seeker_scheduler.Common.{
  ℕ, zero, suc, ◌+◌, ◌≤◌, ◌<◌, ◌≡◌, refl, pos, ◌+ℤ◌, ◌-ℤ◌, ℤ, pos_part, ◌-ℤ◌, ◌-◌, [], ◌∷◌, ◌++◌,
  for_up, for_up_inv, subst, sym, ap, ◌∙◌, update, arith,
}
use seeker_scheduler.Kernel.{Cpumask}
use seeker_scheduler.States.{Sys, add_cpu}
use seeker_scheduler.Common.{count_in, count_in-update_next}
use seeker_scheduler.States.Init.{
  place, place_layout, place_rest, place_all, bounds, FreqRequests, read_max_states, default_layout,
  clear_states, set_levels, init_cpu_states,
}
use seeker_scheduler.States.Init.Frames.{
  read_max_states_frame, default_layout_frame, clear_states_frame,
}
use seeker_scheduler.States.Invariant.{Booked, Consistent}

module _ (K : Cpumask) (s : Sys K.Mask) where
  place-Booked :
      (n state : ℕ)
      → n < s.total_online_cpus
      → state < s.total_states
      → Booked K n s
      → Booked K (suc n) (place K n state s)
  unfolding place add_cpu ◌+ℤ◌
  place-Booked n state h l b = record {
    counted = λ k hk.
        ground (
          arith,
          b.counted k hk,
          b.counted state l,
          count_in-update_next s.cur_cpu_state n k state,
        );
    masked = λ k c hk hc. ground (
      arith,
      b.masked k c hk hc,
      b.masked state c l hc,
      K.isset-set n c (s.states state).cpumask,
      b.fits,
    );
    ranged = λ c hc. ground (arith, b.ranged c);
    fits = b.fits;
  }

-- The requests that put each of the first `n` cpus into the state that the books give it.
pub layout_requests : (ℕ → ℕ) → ℕ → FreqRequests
layout_requests f zero = []
layout_requests f (suc n) = layout_requests f n ++ (n, f n) ∷ []

layout_requests-update :
    (f : ℕ → ℕ) (n c v : ℕ) → n ≤ c → layout_requests (update f c v) n ≡ layout_requests f n
unfolding layout_requests
layout_requests-update f zero c v h = refl
layout_requests-update f (suc n) c v h =
    ground (arith, layout_requests-update f n c v (omega arith))

pos_part-bounds : (x : ℤ) (t : ℕ) → 0 < t → pos_part (bounds x (pos 0) (pos t)) < t
unfolding bounds ◌-ℤ◌
pos_part-bounds x t h = ground arith

-- The loops of `init_cpu_states` after `i` cpus, started at `s₀`.
record Placing (K : Cpumask) (s₀ : Sys K.Mask) (i : ℕ) (p : Sys K.Mask × FreqRequests)
    : Type 0 where
  booked : Booked K i p.0
  online : p.0.total_online_cpus ≡ s₀.total_online_cpus
  total : p.0.total_states ≡ s₀.total_states
  asked : p.1 ≡ layout_requests p.0.cur_cpu_state i

module _ (K : Cpumask) (s₀ : Sys K.Mask) (some_state : 0 < s₀.total_states) where
  place_rest-Placing :
      (i : ℕ) (p : Sys K.Mask × FreqRequests)
      → i < s₀.total_online_cpus
      → Placing K s₀ i p
      → Placing K s₀ (suc i) (place_rest K i p)
  unfolding place_rest place layout_requests
  place_rest-Placing i (s, rs) h p = record {
    booked = place-Booked K s i 0 (omega (arith, p.online)) (omega (arith, p.total)) p.booked;
    online = p.online;
    total = p.total;
    asked = ground (arith, p.asked, layout_requests-update s.cur_cpu_state i i 0);
  }

  place_layout-Placing :
      (i : ℕ) (p : Sys K.Mask × FreqRequests)
      → i < s₀.total_online_cpus
      → Placing K s₀ i p
      → Placing K s₀ (suc i) (place_layout K i p)
  unfolding place_layout place layout_requests
  place_layout-Placing i (s, rs) h p =
      let b = bounds (s.init_layout i) (pos 0) (pos s.total_states) in
      record {
        booked =
            place-Booked K (record s { init_layout = update s.init_layout i b }) i (pos_part b)
              (omega (arith, p.online))
              (pos_part-bounds (s.init_layout i) s.total_states (omega (arith, p.total)))
              (record {
                counted = p.booked.counted;
                masked = p.booked.masked;
                ranged = p.booked.ranged;
                fits = p.booked.fits;
              });
        online = p.online;
        total = p.total;
        asked = ground (arith, p.asked, layout_requests-update s.cur_cpu_state i i (pos_part b));
      }

  place_all-Placing :
      Booked K 0 s₀
      → s₀.init_layout_length ≤ s₀.total_online_cpus
      → Placing K s₀ s₀.total_online_cpus (place_all K s₀)
  unfolding place_all layout_requests
  place_all-Placing b h =
      let n = s₀.init_layout_length in
      let start : Placing K s₀ 0 (s₀, []) = record {
        booked = b;
        online = refl;
        total = refl;
        asked = refl;
      } in
      let laid =
        for_up_inv (Placing K s₀) n (place_layout K) (s₀, []) start
          (λ i p l. place_layout-Placing i p (omega arith)) in
      subst (λ k. Placing K s₀ k (place_all K s₀)) (omega arith)
        (for_up_inv (λ k. Placing K s₀ (n + k)) (s₀.total_online_cpus - n)
          (λ k. place_rest K (n + k)) (for_up n (place_layout K) (s₀, []))
          (subst (λ k. Placing K s₀ k (for_up n (place_layout K) (s₀, []))) (omega arith) laid)
          (λ k p l q.
            subst (λ m. Placing K s₀ m (place_rest K (n + k) p)) (omega arith)
              (place_rest-Placing (n + k) p (omega arith) q)))

module _ (K : Cpumask) where
  -- Before any cpu is placed the books are empty.
  empty_books-Booked :
      (s t : Sys K.Mask)
      → s.total_online_cpus ≤ K.nr_cpus
      → t.total_online_cpus ≡ s.total_online_cpus
      → ((k : ℕ)
          → k < t.total_states
          → t.states k ≡ record { state = k; cpumask = K.none; cpus = pos 0; demand = pos 0 })
      → Booked K 0 t
  unfolding count_in
  empty_books-Booked s t fits online blank = record {
    counted = λ k h. ap (λ d. d.cpus) (blank k h);
    masked = λ k c h l. ap (λ d. K.isset c d.cpumask) (blank k h) ∙ ground (arith, K.isset-none c);
    ranged = λ c l. absurd (omega arith);
    fits = omega arith;
  }

  -- If no more cpus are online than NR_CPUS, and one has a state, `init_cpu_states` starts from consistent books: each online cpu is in one
  -- state, below `total_states`, the state's mask and count say so, and seeker_cpufreq was asked once
  -- for each cpu, in order, to go to that state. No cpu has more states than `total_states`.
  pub init-Consistent :
      (now : ℕ) (max_states : ℕ → ℕ) (registered : ℤ) (s : Sys K.Mask) (i : ℕ)
      → s.total_online_cpus ≤ K.nr_cpus
      → i < s.total_online_cpus
      → 0 < max_states i
      → let (t, rs, code) = init_cpu_states K now max_states registered s in
        Consistent K t
        × (t.total_online_cpus ≡ s.total_online_cpus)
        × (rs ≡ layout_requests t.cur_cpu_state s.total_online_cpus)
        × ((c : ℕ) → c < s.total_online_cpus → max_states c ≤ t.total_states)
  unfolding init_cpu_states set_levels
  init-Consistent now max_states registered s i fits li has =
      let timed : Sys K.Mask = record s {
        current_jiffies = for_up s.total_online_cpus (λ i a. update a i now) s.current_jiffies;
      } in
      let r = read_max_states_frame max_states timed in
      let l = set_levels (read_max_states max_states timed) in
      let c = clear_states_frame K l (omega (arith, r.0)) in
      let d = default_layout_frame (clear_states K l) in
      let b =
        empty_books-Booked s (default_layout (clear_states K l)) fits (d.0 ∙ c.0 ∙ r.0)
          (λ k h. ap (λ f. f k) d.2 ∙ c.2 k (omega (arith, d.1, c.1))) in
      let p =
        place_all-Placing K (default_layout (clear_states K l)) (omega (arith, d.1, c.1, r.2 i li))
          b d.3 in
      let online = p.online ∙ d.0 ∙ c.0 ∙ r.0 in
      (
        subst (λ n. Booked K n (place_all K (default_layout (clear_states K l))).0) (sym p.online)
            p.booked,
        online,
        subst
            (λ n.
              (place_all K (default_layout (clear_states K l))).1
              ≡ layout_requests (place_all K (default_layout (clear_states K l))).0.cur_cpu_state n)
            (d.0 ∙ c.0 ∙ r.0) p.asked,
        λ k h. omega (arith, r.2 k h, p.total, d.1, c.1),
      )
