-- ===== src/Log/Tests.antt =====
-- A log of numbers: two entries are put, and read.
use seeker_scheduler.Common.{
  Option, ℕ, ◌≡◌, refl, ◌⊎◌, true, false, none, some, List, [], ◌∷◌, ◌++◌, pos, negsuc, arith,
}
use seeker_scheduler.Log.{
  Log, get_log, put_log, log_entry, purge_log, seeker_log_read, seeker_log_open, log_init, log_exit,
}
use seeker_scheduler.Log.Session.{Session, opened, put, read, session_fifo}
use seeker_scheduler.Log.Purge.{Purged, session_purge, session_exit}
use seeker_scheduler.Log.Guards.{get_log-put_log, Loaded, Started, Unused, log_init_lem}

abbrev fresh : Log ℕ
fresh = record {
  blocks = λ p. record { entry = 0; next = none };
  live = λ p. false;
  locked = false;
  start_log = none;
  current_log = none;
  first_read = true;
  dev_created = false;
  dev_open = false;
  cache = false;
  cache_made = false;
  registered = false;
  state_logger_started = false;
  state_logger_scheduled = false;
}

-- Block 5 is the first one; the entries 71 and 72 go to the blocks 6 and 7. An entry is 8 bytes.
abbrev open_log : Log ℕ
open_log = (seeker_log_open (log_init true true (some 5) fresh).0)

abbrev one_put : Log ℕ
one_put = log_entry (some 6) 71 open_log

abbrev two_puts : Log ℕ
two_puts = log_entry (some 7) 72 one_put

six_free : open_log.live 6 ≡ false
unfolding log_init seeker_log_open
six_free = refl

seven_free : one_put.live 7 ≡ false
unfolding log_entry log_init seeker_log_open
seven_free = refl

abbrev both : List ℕ
both = 71 ∷ 72 ∷ []

abbrev got : List ℕ
got = [] ++ (seeker_log_read 8 100 two_puts).copied

two_entries : Session 8 two_puts both []
two_entries =
    put one_put (71 ∷ []) [] 7 72 (put open_log [] [] 6 71 (opened fresh 5 (λ p. refl)) six_free)
      seven_free

-- The reader gets the first of the two entries.
first_of_two : (seeker_log_read 8 100 two_puts).copied ≡ 71 ∷ []
unfolding seeker_log_read log_entry log_init seeker_log_open
first_of_two = refl

session_fifo_example :
    ((both ≡ []) × (got ≡ [])) ⊎ ((e : ℕ) × (rest : List ℕ) × (both ≡ got ++ (e ∷ rest)))
session_fifo_example =
    session_fifo 8 (seeker_log_read 8 100 two_puts).log both got (omega arith)
      (read two_puts both [] 100 two_entries)

session_purge_run : Purged (purge_log 3 two_puts)
session_purge_run = session_purge 8 3 two_puts both [] (omega arith) two_entries (omega arith)

device_made : two_puts.dev_created ≡ true
unfolding log_entry log_init seeker_log_open
device_made = refl

session_exit_example :
    let m = log_exit 3 two_puts in
    Purged m
    × (m.registered ≡ false)
    × (m.cache_made ≡ false)
    × (m.dev_open ≡ false)
    × (m.dev_created ≡ false)
session_exit_example =
    session_exit 8 3 two_puts both [] (omega arith) two_entries (omega arith) device_made

get_log-put_log_run :
    let (m, block) = get_log (some 8) two_puts in
    ((block ≡ none) × (m ≡ two_puts))
    ⊎ ((p : ℕ) × (block ≡ some p) × (m.locked ≡ true) × ((put_log block m).locked ≡ false))
get_log-put_log_run = get_log-put_log (some 8) two_puts

fresh-Loaded : Loaded fresh
fresh-Loaded = record {
  unregistered = refl;
  no_cache = refl;
  no_device = refl;
  no_start = refl;
  no_current = refl;
}

-- The allocation fails.
log_init_lem_example :
    let (m, result) = log_init true true none fresh in
    ((p : ℕ) × (true ≡ true)
      × (true ≡ true)
      × (◌≡◌ {A = Option ℕ} none (some p))
      × (result ≡ pos 0)
      × Started p fresh m)
    ⊎ (((true ≡ false) ⊎ (true ≡ false) ⊎ (◌≡◌ {A = Option ℕ} none none))
        × (result ≡ negsuc 0)
        × Unused fresh m)
log_init_lem_example = log_init_lem true true none fresh fresh-Loaded
