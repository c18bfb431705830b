-- ===== src/Log/Guards.antt =====
-- The lock of the writers, and the failures of `log_init`.
use seeker_scheduler.Common.{
  ap, [], ◌≢◌, update_same, update_other, ℕ, ◌≡◌, refl, ◌⊎◌, inl, inr, Bool, true, false, not, ◌||◌,
  Option, none, some, if◌then◌else◌, pos, negsuc,
}
use seeker_scheduler.Log.{
  Log, take_block, get_block, get_from, get_log, put_log, put_entry, log_entry, read_from,
  seeker_log_read, purge_log, set_next, log_init, log_exit,
}

module _ {E : Type 0} where
  put_log-unlocks :
      (p c : ℕ) (m : Log E) → m.current_log ≡ some c → (put_log (some p) m).locked ≡ false
  unfolding put_log
  put_log-unlocks p c m e = rw e refl

  -- What `get_log` is to have done.
  abbrev pub Locks : Log E → Log E × Option ℕ → Type 0
  Locks l (m, block) =
      ((block ≡ none) × (m ≡ l))
      ⊎ ((p : ℕ) × (block ≡ some p) × (m.locked ≡ true) × ((put_log block m).locked ≡ false))

  refused :
      (b : Bool) (l : Log E) (r : Log E × Option ℕ)
      → Locks l r
      → Locks l (if b then (l, none) else r)
  refused true l r h = inl (refl, refl)
  refused false l r h = h

  get_from-Locks :
      (alloc current : Option ℕ) (l : Log E)
      → l.current_log ≡ current
      → Locks l (get_from alloc current l)
  unfolding get_from get_block take_block
  get_from-Locks alloc none l e = inl (refl, refl)
  get_from-Locks none (some c) l e =
      refused (not l.dev_open || not l.cache) l (l, none) (inl (refl, refl))
  get_from-Locks (some p) (some c) l e =
      let m : Log E = record (take_block p l) { locked = true } in
      refused (not l.dev_open || not l.cache) l (m, some p)
        (inr (p, refl, refl, put_log-unlocks p c m e))

  -- `get_log` either returns no block and changes nothing, or returns a block and holds the lock, which
  -- `put_log` of that block then frees.
  pub get_log-put_log :
      (alloc : Option ℕ) (l : Log E)
      → let (m, block) = get_log alloc l in
        ((block ≡ none) × (m ≡ l))
        ⊎ ((p : ℕ) × (block ≡ some p) × (m.locked ≡ true) × ((put_log block m).locked ≡ false))
  unfolding get_log
  get_log-put_log alloc l = get_from-Locks alloc l.current_log l refl

  -- Without a list entries are dropped, and nothing can be read.
  no_list-log_entry :
      (alloc : Option ℕ) (e : E) (m : Log E) → m.current_log ≡ none → log_entry alloc e m ≡ m
  unfolding log_entry get_log get_from put_entry put_log
  no_list-log_entry alloc e m h = ap (λ c. put_entry e (get_from alloc c m)) h

  no_list-seeker_log_read :
      (size count : ℕ) (m : Log E) → m.start_log ≡ none → (seeker_log_read size count m).copied ≡ []
  unfolding seeker_log_read read_from
  no_list-seeker_log_read size count m h =
      ap (λ c. (read_from size count c m.current_log m.first_read m).copied) h

  no_device-log_exit :
      (fuel : ℕ) (m : Log E)
      → m.dev_created ≡ false
      → log_exit fuel m ≡ record m { dev_open = false }
  unfolding log_exit
  no_device-log_exit fuel m h =
      ap
        (λ b.
          if b
          then record (purge_log fuel (record m { dev_open = false; registered = false })) {
            cache_made = false;
            dev_created = false;
          }
          else record m { dev_open = false })
        h

  -- A log as the module is loaded.
  pub record Loaded (l : Log E) : Type 0 where
    pub unregistered : l.registered ≡ false
    pub no_cache : l.cache_made ≡ false
    pub no_device : l.dev_created ≡ false
    pub no_start : l.start_log ≡ none
    pub no_current : l.current_log ≡ none

  -- The log has one block, `p`.
  pub record Started (p : ℕ) (l m : Log E) : Type 0 where
    pub registered_now : m.registered ≡ true
    pub cache_now : (m.cache ≡ true) × (m.cache_made ≡ true)
    pub device_now : m.dev_created ≡ true
    pub first_now : m.first_read ≡ true
    pub start_now : m.start_log ≡ some p
    pub current_now : m.current_log ≡ some p
    pub last_now : (m.blocks p).next ≡ none
    pub live_now : m.live p ≡ true
    pub others_kept : (q : ℕ) → p ≢ q → m.live q ≡ l.live q

  -- There is no device, no cache and no block more than before, and the log stays unused: entries are
  -- dropped, whatever the slab cache would answer, nothing is read, and log_exit only closes it.
  pub record Unused (l m : Log E) : Type 0 where
    pub unregistered : m.registered ≡ false
    pub no_cache : m.cache_made ≡ false
    pub no_device : m.dev_created ≡ false
    pub live_kept : m.live ≡ l.live
    pub drops : (alloc : Option ℕ) (e : E) → log_entry alloc e m ≡ m
    pub reads_nothing : (size count : ℕ) → (seeker_log_read size count m).copied ≡ []
    pub only_closes : (fuel : ℕ) → log_exit fuel m ≡ record m { dev_open = false }

  unused :
      (l m : Log E)
      → m.registered ≡ false
      → m.cache_made ≡ false
      → m.dev_created ≡ false
      → m.live ≡ l.live
      → m.start_log ≡ none
      → m.current_log ≡ none
      → Unused l m
  unused l m r c d v s e = record {
    unregistered = r;
    no_cache = c;
    no_device = d;
    live_kept = v;
    drops = λ alloc x. no_list-log_entry alloc x m e;
    reads_nothing = λ size count. no_list-seeker_log_read size count m s;
    only_closes = λ fuel. no_device-log_exit fuel m d;
  }

  -- From a log as the module is loaded, `log_init` returns 0 if the device is registered, the cache
  -- created and the first block allocated: then the log has this one block, which is in use, has no next block and is at
  -- both ends of the list. Otherwise it returns -1: no device, no cache and no block is left of what it had
  -- set up, and the log stays unused, so that entries are dropped, nothing is read, and `log_exit` takes
  -- nothing down a second time.
  pub log_init_lem :
      (register cache : Bool) (alloc : Option ℕ) (l : Log E)
      → Loaded l
      → let (m, result) = log_init register cache alloc l in
        ((p : ℕ) × (register ≡ true)
          × (cache ≡ true)
          × (alloc ≡ some p)
          × (result ≡ pos 0)
          × Started p l m)
        ⊎ (((register ≡ false) ⊎ (cache ≡ false) ⊎ (alloc ≡ none))
            × (result ≡ negsuc 0)
            × Unused l m)
  unfolding log_init take_block
  log_init_lem false cache alloc l h = inr (
    inl refl,
    refl,
    unused l _ h.unregistered h.no_cache h.no_device refl h.no_start h.no_current,
  )
  log_init_lem true false alloc l h =
      inr
        (inr (inl refl), refl, unused l _ refl h.no_cache h.no_device refl h.no_start h.no_current)
  log_init_lem true true none l h =
      inr (inr (inr refl), refl, unused l _ refl refl h.no_device refl h.no_start refl)
  log_init_lem true true (some p) l h = inl (
    p,
    refl,
    refl,
    refl,
    refl,
    record {
      registered_now = refl;
      cache_now = (refl, refl);
      device_now = refl;
      first_now = refl;
      start_now = refl;
      current_now = refl;
      last_now = ap (λ b. b.next) (update_same l.blocks p (set_next none (l.blocks p)));
      live_now = update_same l.live p true;
      others_kept = λ q ne. update_other l.live p q true ne;
    },
  )
