-- ===== src/Tasks.antt =====
-- Module/seeker-scheduler/nrtasks.c: how many tasks run where. `running` is `get_cpu_nr_running`, the
-- length of a cpu's run queue, which the kernel patch exports; it is read as one snapshot.
use seeker_scheduler.Common.{ℕ, ◌+◌, ◌-◌, ltb, if◌then◌else◌, for_up}
use seeker_scheduler.Kernel.{Cpumask}
use seeker_scheduler.States.{Sys}

unfoldable pub get_cpu_tasks : (running : ℕ → ℕ) → ℕ → ℕ
get_cpu_tasks running cpu = running cpu

module _ {M : Type 0} (running : ℕ → ℕ) where
  -- At most the number of cpus.
  unfoldable pub get_tasks_load : Sys M → ℕ
  get_tasks_load s =
      let total = for_up s.total_online_cpus (λ i t. t + running i) 0 in
      if ltb s.total_online_cpus total then s.total_online_cpus else total

module _ (K : Cpumask) (running : ℕ → ℕ) where
  -- The tasks on all cpus of the state's mask.
  unfoldable pub get_state_tasks : Sys K.Mask → ℕ → ℕ
  get_state_tasks s state =
      for_up K.nr_cpus (λ i t. if K.isset i (s.states state).cpumask then t + running i else t) 0

  -- The same without the calling task.
  unfoldable pub get_state_tasks_exself : Sys K.Mask → ℕ → ℕ
  unfolding get_state_tasks
  get_state_tasks_exself s state = get_state_tasks s state - 1
