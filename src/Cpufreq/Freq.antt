-- ===== src/Cpufreq/Freq.antt =====
-- Module/seeker-cpufreq/freq.c and interface.c: setting a cpu's state, and what goes with it. The
-- kernel's cpufreq driver is a parameter: its answer to each call.
pub mod Inform
use seeker_scheduler.Common.{
  ℕ, zero, suc, ◌+◌, ◌-◌, ◌%◌, ◌^◌, Bool, true, false, ◌||◌, Option, none, some, List, [], ◌∷◌, ltb,
  leb, ◌==◌, not, if◌then◌else◌, ℤ, pos, negsuc, eqb_ℤ, update,
}
use seeker_scheduler.Cpufreq.Users.{Users, inform_freq_change}

-- struct freq_info_t. `policy` holds the number of the kernel's policy structure.
pub record FreqInfo : Type 0 where
  pub cpu : ℕ
  pub cur_freq : ℕ
  pub num_states : ℕ
  pub table : ℕ → ℕ
  pub valid_entry : ℕ → ℕ
  pub latency : ℕ
  pub policy : Option ℕ

-- `freq_info` of each cpu, and the field `cur` of each policy.
pub record Freqs : Type 0 where
  pub freq_info : ℕ → FreqInfo
  pub policy_cur : ℕ → ℕ

-- (unsigned int) -1
abbrev pub unknown_freq : ℕ
unknown_freq = 2 ^ 32 - 1

-- What the driver answers to the first and to a second call for a policy, a frequency and a kind of
-- locking: 0, or an error code.
abbrev pub Driver : Type 0
Driver = (second : Bool) → (policy frequency : ℕ) → (locking : Bool) → ℤ

-- -EAGAIN
abbrev pub try_again : ℤ
try_again = negsuc 10

pub get_freq : ℕ → Freqs → ℕ
get_freq cpu f =
    let cur = (f.freq_info cpu).cur_freq in if cur == unknown_freq then unknown_freq else cur

pub get_max_states : ℕ → Freqs → ℕ
get_max_states cpu f = (f.freq_info cpu).num_states

-- The driver is asked again once if it says so.
unfoldable pub driver_answer : Driver → (policy frequency : ℕ) (locking : Bool) → ℤ
driver_answer driver policy frequency locking =
    let first = driver false policy frequency locking in
    if eqb_ℤ first try_again then driver true policy frequency locking else first

module _ {S : Type 0} (nr_cpus : ℕ) (driver : Driver) (us : Users S) where
  -- The users are told after the driver has accepted the change, and only then.
  unfoldable pub internal_set_freq : (cpu freq_ind : ℕ) (locking : Bool) → Freqs × S → Freqs × S × ℤ
  internal_set_freq cpu freq_ind locking (f, σ) =
      let info = f.freq_info cpu in
      if leb nr_cpus cpu || leb info.num_states freq_ind
      then (f, σ, negsuc 0)
      else elim info.policy [
        | none ↦ (f, σ, negsuc 0)
        | some p ↦
            let chosen = record f { policy_cur = update f.policy_cur p (info.table freq_ind) } in
            let ret = driver_answer driver p (info.table freq_ind) locking in
            if eqb_ℤ ret (pos 0)
            then (chosen, inform_freq_change cpu freq_ind us σ, pos 0)
            else (chosen, σ, ret)
      ]

  unfoldable pub set_freq : (cpu freq_ind : ℕ) → Freqs × S → Freqs × S × ℤ
  unfolding internal_set_freq
  set_freq cpu freq_ind fs = internal_set_freq cpu freq_ind true fs

  -- `__set_freq`, also `cpufreq_seeker_setspeed`
  pub set_freq_nonlocking : (cpu freq_ind : ℕ) → Freqs × S → Freqs × S × ℤ
  set_freq_nonlocking cpu freq_ind fs = internal_set_freq cpu freq_ind false fs

  pub inc_freq : ℕ → Freqs × S → Freqs × S × ℤ
  inc_freq cpu (f, σ) =
      let info = f.freq_info cpu in
      if info.cur_freq == (info.num_states + 2 ^ 32 - 1) % 2 ^ 32
      then (f, σ, pos 0)
      else set_freq cpu ((info.cur_freq + 1) % 2 ^ 32) (f, σ)

  pub dec_freq : ℕ → Freqs × S → Freqs × S × ℤ
  dec_freq cpu (f, σ) =
      let info = f.freq_info cpu in
      if info.cur_freq == 0
      then (f, σ, pos 0)
      else set_freq cpu ((info.cur_freq + 2 ^ 32 - 1) % 2 ^ 32) (f, σ)

pub data GovernorEvent : Type 0 where
  start stop limits other : GovernorEvent

set_info : ℕ → FreqInfo → Freqs → Freqs
set_info cpu i f = record f { freq_info = update f.freq_info cpu i }

pub gov_init_freq_info_cpu : (cpu policy latency : ℕ) → Freqs → Freqs
unfolding set_info
gov_init_freq_info_cpu cpu policy latency f =
    set_info cpu (record (f.freq_info cpu) { policy = some policy; latency = latency }) f

pub gov_exit_freq_info_cpu : ℕ → Freqs → Freqs
unfolding set_info
gov_exit_freq_info_cpu cpu f = set_info cpu (record (f.freq_info cpu) { policy = none }) f

-- `cpufreq_seeker_governor` for the policy of `cpu`; it always returns 0.
pub cpufreq_seeker_governor : GovernorEvent → (cpu policy latency : ℕ) → Freqs → Freqs
unfolding gov_init_freq_info_cpu gov_exit_freq_info_cpu
cpufreq_seeker_governor start cpu policy latency f = gov_init_freq_info_cpu cpu policy latency f
cpufreq_seeker_governor stop cpu policy latency f = gov_exit_freq_info_cpu cpu f
cpufreq_seeker_governor limits cpu policy latency f = f
cpufreq_seeker_governor other cpu policy latency f = f
