-- ===== src/Log.antt =====
-- Module/seeker-scheduler/log.c: the list of log blocks, which the scheduler and the mutators fill and
-- a reader of /dev/seeker_log empties; and the start and stop of the state logger in state.c.
pub mod Queue
pub mod Reader
pub mod Ordered
pub mod Session
pub mod Purge
pub mod Guards
mod Tests
use seeker_scheduler.Common.{
  ℕ, zero, suc, ◌+◌, Bool, true, false, not, ◌&&◌, ◌||◌, Option, none, some, leb, ◌==◌,
  if◌then◌else◌, ℤ, pos, negsuc, update, List, [], ◌∷◌,
}

-- struct log_block; a block's address is a number, and NULL is `none`.
pub record Block (E : Type 0) : Type 0 where
  pub entry : E
  pub next : Option ℕ

-- The variables of the file, the blocks of its cache, and what the kernel keeps for it. `live` marks
-- the blocks that are allocated; `cache` is whether log_cachep is set, `cache_made` whether that cache
-- exists, `registered` whether the device does.
pub record Log (E : Type 0) : Type 0 where
  pub blocks : ℕ → Block E
  pub live : ℕ → Bool
  pub locked : Bool
  pub start_log : Option ℕ
  pub current_log : Option ℕ
  pub first_read : Bool
  pub dev_created : Bool
  pub dev_open : Bool
  pub cache : Bool
  pub cache_made : Bool
  pub registered : Bool
  pub state_logger_started : Bool
  pub state_logger_scheduled : Bool

-- A read, as it goes: the log, what has been copied, and the bytes of it.
pub record LogRead (E : Type 0) : Type 0 where
  pub log : Log E
  pub copied : List E
  pub bytes : ℕ

abbrev pub same_pointer : Option ℕ → Option ℕ → Bool
same_pointer none none = true
same_pointer (some p) (some q) = p == q
same_pointer none (some q) = false
same_pointer (some p) none = false

-- The condition of the loop that copies entries.
pub goes_on : (size count i : ℕ) (start_log next current_log : Option ℕ) → Bool
goes_on size count i start_log next current_log =
    leb (i + size) count && not (same_pointer next none) && not (same_pointer start_log current_log)

module _ {E : Type 0} where
  -- `b.next = q`, `b.entry = e`
  abbrev pub set_next : Option ℕ → Block E → Block E
  set_next q b = record b { next = q }

  -- kmem_cache_alloc has answered with a block.
  pub take_block : ℕ → Log E → Log E
  take_block p l = record l {
    live = update l.live p true;
    blocks = update l.blocks p (set_next none (l.blocks p));
  }

  -- `alloc` is the answer of kmem_cache_alloc. The lock is held on if a block is returned.
  pub get_block : (alloc : Option ℕ) → Log E → Log E × Option ℕ
  unfolding take_block
  get_block none l = (l, none)
  get_block (some p) l = (record (take_block p l) { locked = true }, some p)

  pub get_from : (alloc current_log : Option ℕ) → Log E → Log E × Option ℕ
  unfolding get_block
  get_from alloc none l = (l, none)
  get_from alloc (some c) l = if not l.dev_open || not l.cache then (l, none) else get_block alloc l

  pub get_log : (alloc : Option ℕ) → Log E → Log E × Option ℕ
  unfolding get_from
  get_log alloc l = get_from alloc l.current_log l

  -- With the lock held, current_log is not NULL.
  pub put_log : Option ℕ → Log E → Log E
  put_log none l = l
  put_log (some p) l = elim l.current_log [
    | none ↦ l
    | some c ↦ record l {
      blocks = update l.blocks c (set_next (some p) (l.blocks c));
      current_log = some p;
      locked = false;
    }
  ]

  -- How the callers log an entry: the block that is taken is filled and put.
  pub put_entry : E → Log E × Option ℕ → Log E
  unfolding put_log
  put_entry e (m, none) = put_log none m
  put_entry e (m, some p) =
      put_log (some p) (record m { blocks = update m.blocks p (record (m.blocks p) { entry = e }) })

  pub log_entry : (alloc : Option ℕ) → E → Log E → Log E
  unfolding get_log put_entry
  log_entry alloc e l = put_entry e (get_log alloc l)

  pub log_free : Option ℕ → Log E → Log E
  log_free none l = l
  log_free (some p) l = if l.cache then record l { live = update l.live p false } else l

  -- The loop that frees the blocks from `c1` on, with the rounds that are left.
  pub free_chain : (fuel : ℕ) → Option ℕ → Log E → Log E
  unfolding log_free
  free_chain zero c1 l = l
  free_chain (suc fuel) none l = l
  free_chain (suc fuel) (some p) l = free_chain fuel (l.blocks p).next (log_free (some p) l)

  pub purge_from : (fuel : ℕ) (start_log current_log : Option ℕ) → Log E → Log E
  unfolding free_chain
  purge_from fuel none current_log l = l
  purge_from fuel (some p) none l = l
  purge_from fuel (some p) (some q) l =
      free_chain fuel (some p) (record l { start_log = none; current_log = none })

  pub purge_log : (fuel : ℕ) → Log E → Log E
  unfolding purge_from
  purge_log fuel l = purge_from fuel l.start_log l.current_log l

  -- start_log goes on to the next block, and the one that it leaves is freed.
  pub drop_start : ℕ → Log E → Log E
  unfolding log_free
  drop_start p l = log_free (some p) (record l { start_log = (l.blocks p).next })

  -- The loop that copies entries, with the rounds that are left. `size` is sizeof(log_t).
  pub copy_loop : (size count fuel i : ℕ) → Log E → LogRead E
  unfolding goes_on drop_start
  copy_loop size count zero i l = record { log = l; copied = []; bytes = i }
  copy_loop size count (suc fuel) i l = elim l.start_log [
    | none ↦ record { log = l; copied = []; bytes = i }
    | some p ↦
        let rest = copy_loop size count fuel (i + size) (drop_start p l) in
        if goes_on size count i (some p) (l.blocks p).next l.current_log
        then record rest { copied = (l.blocks p).entry ∷ rest.copied }
        else record { log = l; copied = []; bytes = i }
  ]

  -- The first read, whose list has a further block `next`, leaves the block that `log_init` made out.
  pub read_first : (size count : ℕ) (next : Option ℕ) (p : ℕ) → Log E → LogRead E
  unfolding copy_loop drop_start
  read_first size count none p l = record { log = l; copied = []; bytes = 0 }
  read_first size count (some q) p l =
      copy_loop size count count 0 (record (drop_start p l) { first_read = false })

  pub read_from :
      (size count : ℕ) (start_log current_log : Option ℕ) (first_read : Bool) → Log E → LogRead E
  unfolding copy_loop read_first
  read_from size count none current_log first_read l = record { log = l; copied = []; bytes = 0 }
  read_from size count (some p) current_log first_read l =
      if same_pointer (some p) current_log
      then record { log = l; copied = []; bytes = 0 }
      else if first_read
      then read_first size count (l.blocks p).next p l
      else copy_loop size count count 0 l

  -- `seeker_log_read` with a file and a buffer. No read copies more than `count` entries.
  pub seeker_log_read : (size count : ℕ) → Log E → LogRead E
  unfolding read_from
  seeker_log_read size count l = read_from size count l.start_log l.current_log l.first_read l

  pub start_state_logger : Log E → Log E
  start_state_logger l =
      if l.state_logger_started
      then l
      else record l { state_logger_started = true; state_logger_scheduled = true }

  pub stop_state_logger : Log E → Log E
  stop_state_logger l =
      if l.state_logger_started
      then record l { state_logger_started = false; state_logger_scheduled = false }
      else l

  pub seeker_log_open : Log E → Log E
  unfolding start_state_logger
  seeker_log_open l = record (start_state_logger l) { dev_open = true }

  pub seeker_log_close : Log E → Log E
  unfolding stop_state_logger
  seeker_log_close l = stop_state_logger (record l { dev_open = false })

  -- `register`, `cache` and `alloc` are the answers of misc_register (whether it succeeds), kmem_cache_create and
  -- kmem_cache_alloc. The result is 0 or -1.
  pub log_init : (register cache : Bool) (alloc : Option ℕ) → Log E → Log E × ℤ
  unfolding take_block
  log_init register cache alloc l =
      let m = record l { locked = false } in
      let made = record m { registered = true; cache = true; cache_made = true } in
      if not register
      then (m, negsuc 0)
      else if not cache
      then (record m { registered = false; cache = false }, negsuc 0)
      else elim alloc [
        | none ↦
            (record made { registered = false; cache_made = false; current_log = none }, negsuc 0)
        | some p ↦ (
          record (take_block p made) {
            current_log = some p;
            start_log = some p;
            dev_created = true;
            first_read = true;
          },
          pos 0,
        )
      ]

  pub log_exit : (fuel : ℕ) → Log E → Log E
  unfolding purge_log
  log_exit fuel l =
      let closed = record l { dev_open = false } in
      let purged = purge_log fuel (record closed { registered = false }) in
      if l.dev_created then record purged { cache_made = false; dev_created = false } else closed
