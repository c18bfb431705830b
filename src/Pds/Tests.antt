-- ===== src/Pds/Tests.antt =====
-- A task that has run 20 million instructions in 25 million cycles, on two idle cpus.
use seeker_scheduler.Common.{ℕ, ◌≡◌, refl, false, pos, negsuc}
use seeker_scheduler.Kernel.{test_mask}
use seeker_scheduler.Migrate.{MaskWork}
use seeker_scheduler.Pds.{Task, to_short, ipc_of}

abbrev runner : Task
runner = record {
  task = 4;
  pid = 400;
  interval = 2;
  inst = 20000000;
  ref_cy = 30000000;
  re_cy = 25000000;
  cpustate = pos 0;
  hist_step = pos 0;
  fixed_state = negsuc 0;
}

-- An IPC of 0.8 is 6 eighths.
runner_ipc : to_short (ipc_of runner.inst runner.re_cy) ≡ pos 6
unfolding to_short ipc_of
runner_ipc = refl

abbrev empty_pool : ℕ → MaskWork test_mask.Mask
empty_pool i = record { scheduled = false; task = 0; mask = λ c. false; free = 1 }
