-- ===== src/Log/Purge.antt =====
-- What `purge_log` and `log_exit` leave allocated: nothing.
use seeker_scheduler.Common.{
  ℕ, zero, suc, ◌+◌, ◌-◌, ◌≤◌, ◌<◌, ◌≡◌, refl, ap, ◌∙◌, sym, Bool, Bool-cases, inl, inr, true,
  false, Option, none, some, if◌then◌else◌, ◌==◌, update, update_same, List, length, ◌⊎◌, arith,
}
use seeker_scheduler.Log.{Log, log_free, free_chain, purge_from, purge_log, log_exit}
use seeker_scheduler.Log.Queue.{Holds, SameList-Holds}
use seeker_scheduler.Log.Reader.{slice}
use seeker_scheduler.Log.Session.{Session, Session-Ordered}

not_live : {a b : Bool} → (a ≡ true → b ≡ true) → b ≡ false → a ≡ false
not_live h e = ground arith

module _ {E : Type 0} where
  -- Blocks have been freed, and nothing else has happened.
  record Freed (l m : Log E) : Type 0 where
    down : (q : ℕ) → m.live q ≡ true → l.live q ≡ true
    start_same : m.start_log ≡ l.start_log
    current_same : m.current_log ≡ l.current_log
    registered_same : m.registered ≡ l.registered
    open_same : m.dev_open ≡ l.dev_open

  abbrev freed_one : (p : ℕ) → Log E → Log E
  freed_one p l = record l { live = update l.live p false }

  log_free_lem : (p : ℕ) (l : Log E) → l.cache ≡ true → log_free (some p) l ≡ freed_one p l
  unfolding log_free
  log_free_lem p l c = rw c refl

  chain_step :
      (fuel p : ℕ) (q : Option ℕ) (l : Log E)
      → l.cache ≡ true
      → (l.blocks p).next ≡ q
      → free_chain (suc fuel) (some p) l ≡ free_chain fuel q (freed_one p l)
  unfolding free_chain
  chain_step fuel p q l c n =
      ap (λ x. free_chain fuel x (log_free (some p) l)) n
      ∙ ap (free_chain fuel q) (log_free_lem p l c)

  chain_end : (fuel : ℕ) (l : Log E) → free_chain fuel none l ≡ l
  unfolding free_chain
  chain_end zero l = refl
  chain_end (suc fuel) l = refl

  -- The blocks `at lo` to `at (lo + k)`, linked and then ending, are freed by `k + 1` rounds.
  free_chain-Freed :
      (at : ℕ → ℕ) (k fuel lo : ℕ) (l : Log E)
      → k < fuel
      → l.cache ≡ true
      → ((i : ℕ) → lo ≤ i → i < lo + k → (l.blocks (at i)).next ≡ some (at (suc i)))
      → (l.blocks (at (lo + k))).next ≡ none
      → let m = free_chain fuel (some (at lo)) l in
        Freed l m × ((i : ℕ) → lo ≤ i → i ≤ lo + k → m.live (at i) ≡ false)
  free_chain-Freed at k zero lo l h c link ends = absurd (omega arith)
  free_chain-Freed at zero (suc fuel) lo l h c link ends =
      let q : lo + 0 ≡ lo = omega arith in
      rw
        (
          chain_step fuel (at lo) none l c (ap (λ i. (l.blocks (at i)).next) (sym q) ∙ ends),
          chain_end fuel (freed_one (at lo) l),
        )
        (
          record {
            down = λ r e. ground arith;
            start_same = refl;
            current_same = refl;
            registered_same = refl;
            open_same = refl;
          },
          λ i g s. let z : i ≡ lo = omega arith in rw z (update_same l.live (at lo) false),
        )
  free_chain-Freed at (suc k) (suc fuel) lo l h c link ends =
      let q : lo + suc k ≡ suc lo + k = omega arith in
      let (f, cleared) =
        free_chain-Freed at k fuel (suc lo) (freed_one (at lo) l) (omega arith) c
          (λ i g s. link i (omega arith) (omega arith))
          (ap (λ i. (l.blocks (at i)).next) (sym q) ∙ ends) in
      rw (chain_step fuel (at lo) (some (at (suc lo))) l c (link lo (omega arith) (omega arith))) (
        record {
          down = λ r e. ground (arith, f.down r e);
          start_same = f.start_same;
          current_same = f.current_same;
          registered_same = f.registered_same;
          open_same = f.open_same;
        },
        λ i g s. elim (Bool-cases (lo == i)) [
          | inl here ↦
              let z : i ≡ lo = ground arith in
              rw z (not_live (f.down (at lo)) (update_same l.live (at lo) false))
          | inr past ↦ cleared i (ground arith) (omega arith)
        ],
      )

  purge_log_step :
      (fuel p c : ℕ) (l : Log E)
      → l.start_log ≡ some p
      → l.current_log ≡ some c
      → purge_log fuel l
        ≡ free_chain fuel (some p) (record l { start_log = none; current_log = none })
  unfolding purge_log purge_from
  purge_log_step fuel p c l e h =
      ap (λ x. purge_from fuel x l.current_log l) e ∙ ap (λ x. purge_from fuel (some p) x l) h

  -- Nothing is allocated, and nothing points to a block.
  pub record Purged (m : Log E) : Type 0 where
    pub none_live : (q : ℕ) → m.live q ≡ false
    pub no_start : m.start_log ≡ none
    pub no_current : m.current_log ≡ none

  purge_log-Freed :
      (at : ℕ → ℕ) (written : ℕ → E) (lo hi fuel : ℕ) (l : Log E)
      → hi - lo < fuel
      → Holds at written lo hi l
      → Purged (purge_log fuel l)
        × ((purge_log fuel l).registered ≡ l.registered)
        × ((purge_log fuel l).dev_open ≡ l.dev_open)
  purge_log-Freed at written lo hi fuel l h v =
      let q : lo + (hi - lo) ≡ hi = omega (arith, v.order) in
      let (f, cleared) =
        free_chain-Freed at (hi - lo) fuel lo (record l { start_log = none; current_log = none }) h
          v.has_cache (λ i g s. v.link i g (omega arith))
          (ap (λ i. (l.blocks (at i)).next) q ∙ v.ends) in
      rw (purge_log_step fuel (at lo) (at hi) l v.first v.last) (
        record {
          none_live = λ q.
              all_free
                (free_chain fuel (some (at lo)) (record l { start_log = none; current_log = none }))
                f.down (λ i g s. cleared i g (omega (arith, v.order))) q (Bool-cases _);
          no_start = f.start_same;
          no_current = f.current_same;
        },
        f.registered_same,
        f.open_same,
      )
    where
      all_free :
          (m : Log E)
          → ((q : ℕ) → m.live q ≡ true → l.live q ≡ true)
          → ((i : ℕ) → lo ≤ i → i ≤ hi → m.live (at i) ≡ false)
          → (q : ℕ) → (m.live q ≡ true) ⊎ (m.live q ≡ false)
          → m.live q ≡ false
      all_free m down cleared q (inr dead) = dead
      all_free m down cleared q (inl alive) =
          let (i, g, s, e) = v.owned q (down q alive) in
          absurd (ground (arith, alive, ap m.live e, cleared i g s))

length-slice : {E : Type 0} (f : ℕ → E) (a n : ℕ) → length (slice f a n) ≡ n
length-slice f a zero = refl
length-slice f a (suc n) = ap suc (length-slice f (suc a) n)

-- However a log has been used since `log_init`, rounds for the entries that were put and one more let
-- `purge_log` end with all its blocks freed, and no pointer to one left.
pub session_purge :
    {E : Type 0} (size fuel : ℕ) (l : Log E) (puts reads : List E)
    → 0 < size
    → Session size l puts reads
    → length puts < fuel
    → Purged (purge_log fuel l)
session_purge size fuel l puts reads some_size s h =
    let v = Session-Ordered size l puts reads some_size s in
    (purge_log-Freed v.at v.written v.lo v.hi fuel l
      (omega (arith, ap length v.has_put ∙ length-slice v.written 1 v.hi)) v.holds).0

log_exit_step :
    {E : Type 0} (fuel : ℕ) (l : Log E)
    → l.dev_created ≡ true
    → log_exit fuel l
      ≡ record (purge_log fuel (record l { dev_open = false; registered = false })) {
        cache_made = false;
        dev_created = false;
      }
unfolding log_exit
log_exit_step fuel l made =
    ap
      (λ (b : Bool).
        if b
        then record (purge_log fuel (record l { dev_open = false; registered = false })) {
          cache_made = false;
          dev_created = false;
        }
        else record l { dev_open = false })
      made

-- With the device made, `log_exit` frees all blocks of a log in use, and it closes and removes the device, destroys the cache and
-- notes that there is no device any more.
pub session_exit :
    {E : Type 0} (size fuel : ℕ) (l : Log E) (puts reads : List E)
    → 0 < size
    → Session size l puts reads
    → length puts < fuel
    → l.dev_created ≡ true
    → let m = log_exit fuel l in
      Purged m
      × (m.registered ≡ false)
      × (m.cache_made ≡ false)
      × (m.dev_open ≡ false)
      × (m.dev_created ≡ false)
session_exit size fuel l puts reads some_size s h made =
    let v = Session-Ordered size l puts reads some_size s in
    let closed : Log _ = record l { dev_open = false; registered = false } in
    let (p, r, o) =
      purge_log-Freed v.at v.written v.lo v.hi fuel closed
        (omega (arith, ap length v.has_put ∙ length-slice v.written 1 v.hi))
        (SameList-Holds v.at v.written v.lo v.hi l closed
          (record {
            blocks_same = refl;
            live_same = refl;
            start_same = refl;
            current_same = refl;
            cache_same = refl;
          })
          v.holds) in
    rw (log_exit_step fuel l made) (
      record { none_live = p.none_live; no_start = p.no_start; no_current = p.no_current },
      r,
      refl,
      o,
      refl,
    )
