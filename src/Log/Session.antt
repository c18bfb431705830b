-- ===== src/Log/Session.antt =====
-- A log in use, from `log_init` on: what has been put and what has been read.
use seeker_scheduler.Common.{
  ℕ, zero, suc, ◌+◌, ◌-◌, ◌<◌, ◌≡◌, refl, ap, ◌⊎◌, inl, inr, Bool, true, false, if◌then◌else◌, none,
  some, update_same, List, [], ◌∷◌, ◌++◌, arith,
}
use seeker_scheduler.Log.{
  Log, set_next, take_block, log_entry, seeker_log_read, log_init, seeker_log_open,
  start_state_logger,
}
use seeker_scheduler.Log.Queue.{Holds, SameList, SameList-Holds, log_entry_none}
use seeker_scheduler.Log.Reader.{slice}
use seeker_scheduler.Log.Ordered.{Ordered, slice-append, put-Ordered, read-Ordered}

-- A log that the module has made and a reader has opened, the entries put since then, and those that
-- the reader has got. The cache answers with a block that is free, or with none, and then the entry is lost.
pub data Session {E : Type 0} (size : ℕ) : Log E → List E → List E → Type 0 where
  opened :
      (l : Log E) (p : ℕ)
      → ((q : ℕ) → l.live q ≡ false)
      → Session size (seeker_log_open (log_init true true (some p) l).0) [] []
  put :
      (l : Log E) (puts reads : List E) (p : ℕ) (e : E)
      → Session size l puts reads
      → l.live p ≡ false
      → Session size (log_entry (some p) e l) (puts ++ (e ∷ [])) reads
  lost :
      (l : Log E) (puts reads : List E) (e : E)
      → Session size l puts reads
      → Session size (log_entry none e l) puts reads
  read :
      (l : Log E) (puts reads : List E) (count : ℕ)
      → Session size l puts reads
      → Session size
          (seeker_log_read size count l).log
          puts
          (reads ++ (seeker_log_read size count l).copied)

module _ {E : Type 0} where
  init-Holds :
      (l : Log E) (p : ℕ)
      → ((q : ℕ) → l.live q ≡ false)
      → Holds (λ i. p) (λ i. (l.blocks p).entry) 0 0 (log_init true true (some p) l).0
  unfolding log_init take_block
  init-Holds l p none_live = record {
    order = omega arith;
    first = refl;
    last = refl;
    link = λ i g h. absurd (omega arith);
    ends = ap (λ b. b.next) (update_same l.blocks p (set_next none (l.blocks p)));
    alive = λ i g h. update_same l.live p true;
    distinct = λ i j g h k. absurd (omega arith);
    owned = λ q h. (0, omega arith, omega arith, ground (arith, none_live q));
    content = λ i g h. ap (λ b. b.entry) (update_same l.blocks p (set_next none (l.blocks p)));
    has_cache = refl;
  }

  open-SameList :
      (l : Log E)
      → SameList l (seeker_log_open l)
        × ((seeker_log_open l).dev_open ≡ true)
        × ((seeker_log_open l).first_read ≡ l.first_read)
  unfolding seeker_log_open start_state_logger
  open-SameList l = go l.state_logger_started
    where
      go :
          (b : Bool)
          → let m =
              (if b
                then l
                else record l { state_logger_started = true; state_logger_scheduled = true }) in
            let o = record m { dev_open = true } in
            SameList l o × (o.dev_open ≡ true) × (o.first_read ≡ l.first_read)
      go true = (
        record {
          blocks_same = refl;
          live_same = refl;
          start_same = refl;
          current_same = refl;
          cache_same = refl;
        },
        refl,
        refl,
      )
      go false = (
        record {
          blocks_same = refl;
          live_same = refl;
          start_same = refl;
          current_same = refl;
          cache_same = refl;
        },
        refl,
        refl,
      )

  opened-Ordered :
      (l : Log E) (p : ℕ)
      → ((q : ℕ) → l.live q ≡ false)
      → Ordered (seeker_log_open (log_init true true (some p) l).0) [] []
  unfolding log_init
  opened-Ordered l p none_live =
      let m = (log_init true true (some p) l).0 in
      let (same, o, f) = open-SameList m in
      record {
        at = λ i. p;
        written = λ i. (l.blocks p).entry;
        lo = 0;
        hi = 0;
        holds =
            SameList-Holds (λ i. p) (λ i. (l.blocks p).entry) 0 0 m (seeker_log_open m) same
              (init-Holds l p none_live);
        is_open = o;
        has_put = refl;
        has_read = inl (f, refl, refl);
      }

  pub Session-Ordered :
      (size : ℕ) (l : Log E) (puts reads : List E)
      → 0 < size
      → Session size l puts reads
      → Ordered l puts reads
  Session-Ordered size _ _ _ some_size (opened l p none_live) = opened-Ordered l p none_live
  Session-Ordered size _ _ _ some_size (put l puts reads p e s fresh) =
      put-Ordered l puts reads p e fresh (Session-Ordered size l puts reads some_size s)
  Session-Ordered size _ _ _ some_size (lost l puts reads e s) =
      rw (log_entry_none e l) (Session-Ordered size l puts reads some_size s)
  Session-Ordered size _ _ _ some_size (read l puts reads count s) =
      read-Ordered size count l puts reads some_size (Session-Ordered size l puts reads some_size s)

-- Whatever is put and read, in whichever order, from `log_init` on, while the reader keeps the device
-- open: the reader gets the entries in the order in which they were put, none left out and none
-- twice; and, if any have been put, it has not got the last one yet.
pub session_fifo :
    {E : Type 0} (size : ℕ) (l : Log E) (puts reads : List E)
    → 0 < size
    → Session size l puts reads
    → ((puts ≡ []) × (reads ≡ [])) ⊎ ((e : E) × (rest : List E) × (puts ≡ reads ++ (e ∷ rest)))
session_fifo size l puts reads some_size s =
    let v = Session-Ordered size l puts reads some_size s in
    elim v.has_read [
      | inl (t, z, e) ↦ before v.hi v.written puts reads v.has_put e
      | inr (f, pos, e) ↦ inr (
          after (v.lo - 1) (v.hi - v.lo) v.hi v.written puts reads (omega (arith, v.holds.order))
            v.has_put e)
    ]
  where
    before :
        {E : Type 0} (n : ℕ) (f : ℕ → E) (puts reads : List E)
        → puts ≡ slice f 1 n
        → reads ≡ []
        → ((puts ≡ []) × (reads ≡ [])) ⊎ ((e : E) × (rest : List E) × (puts ≡ reads ++ (e ∷ rest)))
    before zero f puts reads p r = inl (p, r)
    before (suc n) f puts reads p r = inr (f 1, slice f 2 n, rw r p)

    after :
        {E : Type 0} (a k n : ℕ) (f : ℕ → E) (puts reads : List E)
        → n ≡ a + suc k
        → puts ≡ slice f 1 n
        → reads ≡ slice f 1 a
        → (e : E) × (rest : List E) × (puts ≡ reads ++ (e ∷ rest))
    after a k n f puts reads q p r =
        (f (1 + a), slice f (suc (1 + a)) k, rw (p, r, q) (slice-append f 1 a (suc k)))
