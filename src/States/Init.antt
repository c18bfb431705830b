-- ===== src/States/Init.antt =====
-- `init_cpu_states` of Module/seeker-scheduler/state.c, step by step.
mod Frames
pub mod Booking
use seeker_scheduler.Common.{
  ℕ, zero, suc, ◌+◌, ◌-◌, ◌*◌, ◌/◌, ◌%◌, ◌^◌, Bool, true, false, Option, none, some, List, [], ◌∷◌,
  ◌++◌, ltb, leb, ◌==◌, if◌then◌else◌, ℤ, pos, negsuc, pos_part, ◌+ℤ◌, ◌-ℤ◌, ltb_ℤ, leb_ℤ, eqb_ℤ,
  update, for_up,
}
use seeker_scheduler.Kernel.{Cpumask}
use seeker_scheduler.States.{Sys, add_cpu}

-- The macro BOUNDS: `val`, cut to the range from `l` up to but not including `h`.
pub bounds : (val l h : ℤ) → ℤ
bounds val l h = if ltb_ℤ val l then l else if leb_ℤ h val then h -ℤ pos 1 else val

-- What `init_cpu_states` asks of seeker_cpufreq: `set_freq(cpu, state)`.
abbrev pub FreqRequests : Type 0
FreqRequests = List (ℕ × ℕ)

module _ {M : Type 0} where
  -- `get_max_states` answers for each cpu; `total_states` is the largest answer.
  pub read_max_states : (max_states : ℕ → ℕ) → Sys M → Sys M
  read_max_states max_states s =
      for_up s.total_online_cpus
        (λ i t. record t {
          max_state_possible = update t.max_state_possible i (max_states i);
          total_states = if ltb t.total_states (max_states i) then max_states i else t.total_states;
        })
        s

  pub set_levels : Sys M → Sys M
  unfolding bounds
  set_levels s = record s {
    low_state = pos 0;
    high_state = pos s.total_states -ℤ pos 1;
    mid_state = pos (s.total_states / 2);
    base_state = bounds s.base_state (pos 0) (pos s.total_states);
  }

  -- The module parameter `init_layout`: all 0 if it was not given, and cut to the cpus there are.
  pub default_layout : Sys M → Sys M
  default_layout s =
      let filled =
        (if s.init_layout_length == 0
          then record s {
            init_layout = for_up s.total_online_cpus (λ i a. update a i (pos 0)) s.init_layout;
            init_layout_length = s.total_online_cpus;
          }
          else s) in
      if ltb filled.total_online_cpus filled.init_layout_length
      then record filled { init_layout_length = filled.total_online_cpus }
      else filled

module _ (K : Cpumask) where
  open K use {Mask, none as no_cpus}

  pub clear_states : Sys Mask → Sys Mask
  clear_states s =
      for_up s.total_states
        (λ i t. record t {
          states =
              update t.states i
                (record { state = i; cpumask = no_cpus; cpus = pos 0; demand = pos 0 });
        })
        s

  -- `cpu` starts in `state`.
  pub place : (cpu state : ℕ) → Sys Mask → Sys Mask
  unfolding add_cpu
  place cpu state s = record s {
    states = update s.states state (add_cpu K cpu (s.states state));
    cur_cpu_state = update s.cur_cpu_state cpu state;
  }

  -- A cpu with a layout entry. A negative entry, which needs `total_states` 0, has no array cell.
  pub place_layout : ℕ → Sys Mask × FreqRequests → Sys Mask × FreqRequests
  unfolding place bounds
  place_layout i (s, rs) =
      let b = bounds (s.init_layout i) (pos 0) (pos s.total_states) in
      (
        place i (pos_part b) (record s { init_layout = update s.init_layout i b }),
        rs ++ (i, pos_part b) ∷ [],
      )

  pub place_rest : ℕ → Sys Mask × FreqRequests → Sys Mask × FreqRequests
  unfolding place
  place_rest i (s, rs) = (place i 0 s, rs ++ (i, 0) ∷ [])

  pub place_all : Sys Mask → Sys Mask × FreqRequests
  unfolding place_layout place_rest
  place_all s =
      let n = s.init_layout_length in
      for_up (s.total_online_cpus - n) (λ k. place_rest (n + k)) (for_up n place_layout (s, []))

  -- `init_cpu_states`: the state, what was asked of seeker_cpufreq, and the returned code.
  -- `registered` is the answer of `register_scpufreq_user`.
  unfoldable pub init_cpu_states :
      (now : ℕ) (max_states : ℕ → ℕ) (registered : ℤ) → Sys Mask → Sys Mask × FreqRequests × ℤ
  unfolding read_max_states set_levels clear_states default_layout place_all
  init_cpu_states now max_states registered s =
      let timed = record s {
        current_jiffies = for_up s.total_online_cpus (λ i a. update a i now) s.current_jiffies;
      } in
      let cleared = clear_states (set_levels (read_max_states max_states timed)) in
      let (placed, rs) = place_all (default_layout cleared) in
      (placed, rs, (if eqb_ℤ registered (pos 0) then pos 0 else negsuc 0))
