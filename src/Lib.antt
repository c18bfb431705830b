-- ===== src/Lib.antt =====
-- Verification of seeker-scheduler: kernel modules that put each cpu into a performance state, and
-- each task on a cpu in a state that suits it.
--
-- The parts. Module/seeker-cpufreq sets a cpu's frequency by a state's number (freq.c, interface.c)
-- and tells its registered users of every change (user.c). Module/seeker-scheduler is such a user:
-- state.c keeps the books of which cpu is in which state and of the demand for each state. When a task
-- has run for long enough, map_ipc.c turns its instructions per cycle into a state that it should run
-- in, and search_state.c looks for a state near that one with a free cpu, by the counts of nrtasks.c.
-- Every interval a mutator (mutate_common.c and the files mutate_*.c) decides how many cpus are awake,
-- and in which state each is.
--
-- The files, and what they model:
--   Common, Common/*      helpers: loops, arrays as functions, counting, integers
--   Kernel                cpumask_t and the registers of asm/msr.h of the Linux kernel, by their
--                         documented laws
--   States                Module/seeker-scheduler/state.c: the record Sys holds its variables, and one
--                         function stands for each of its functions; States/Init is init_cpu_states,
--                         States/Invariant the books and what keeps them, States/Init/Booking what
--                         init_cpu_states makes of them, States/Reach the calls that follow
--   Tasks                 Module/seeker-scheduler/nrtasks.c
--   Search, Search/*      Module/seeker-scheduler/search_state.c: Scan has its two kinds of loop,
--                         Lowest and Closest what the searches return
--   MapIpc, MapIpc/*      Module/seeker-scheduler/map_ipc.c: Ladder and Select have the requests,
--                         Evaluate the whole way from an IPC to a state
--   Pds, Pds/Send         Module/seeker-scheduler/pds.c: where a task is sent
--   Migrate, Migrate/Pool Module/seeker-scheduler/migrate.c: the requests to move tasks
--   Cpufreq/Users         Module/seeker-cpufreq/user.c; Users/Registry what registering does
--   Cpufreq/Freq          Module/seeker-cpufreq/freq.c and interface.c: setting frequencies
--   Cpufreq/Tables        Module/seeker-cpufreq/freq.c: init_freqs, sort_table, prune_states
--   Mutate, Mutate/*      Module/seeker-scheduler/mutate_common.c: Wake and Retire have its loops, Proxy
--                         retire_procs as a whole, Timer init_mutator and state_change, and
--                         Timer/Runs what the work does from one run to the next
--   Mutate/Demand         Module/seeker-scheduler/mutate_gd.c: the demand for each state
--   Mutate/Greedy         Module/seeker-scheduler/mutate_gd.c: the auction, Mutate/Greedy/Round and
--                         Budget what it does; Mutate/Greedy/Run is greedy_delta around it, Run/Fill,
--                         Run/Books and Run/Switch its later loops
--   Mutate/Dynamic        Module/seeker-scheduler/mutate_dyn.c: mck and the demand it works on;
--                         Dynamic/Table and Optimal what mck finds, Transform and Handed what becomes
--                         of the demand, Dynamic/Run mem_dynamic_prog, Run/Plan and Run/Books its plan
--                         and what it does with it
--   Mutate/Governors      Module/seeker-scheduler/mutate_od.c and mutate_cv.c
--   Load                  Module/seeker-scheduler/load.c
--   Log, Log/*            Module/seeker-scheduler/log.c: the list of log blocks; Queue and Reader the
--                         two ends of the list, Ordered and Session a log in use, Purge its end, Guards the lock
--                         and the failures
--   Mutate/Request        the mutators' calls of set_freq, against the model of seeker-cpufreq
--   Pmu, Pmu/*            Module/pmu, for ARCH_C2D: Msr is msr_pmu.c and intr_pmu.c, Fixed msr_fpmu.c and
--                         intr_fpmu.c; Fields has what the registers hold, Enable and Read what the
--                         calls do, Init is main.c
--   Hwcounters            Module/seeker-scheduler/hwcounters.c on fixed counters; Hwcounters/Enable and
--                         Read are its calls of the pmu driver, Interval what is counted; Startup, Fixed
--                         and Loaded what loading the driver leaves for it
--   Tsc                   Module/seeker-scheduler/tsc_intf.c
-- A module Tests runs the definitions, and applies the theorems, on small machines.
--
-- How the code is modelled. A C array is a function on numbers, changed by `update`; a loop is `for_up`,
-- or a recursion on the rounds that are left. A critical section is one step, since the code holds a
-- lock for the length of it. An int that can be negative is an integer (ℤ), which does not overflow: it
-- holds numbers of cpus, of tasks and of states, and the demand for a state, which counts the requests
-- of one interval. The module parameters delta and change_interval are not below 0. Where the code relies
-- on wrapping (the ids of users, num_states, the clock) the model wraps. An out parameter is part of the
-- result. A call into seeker_cpufreq from the scheduler is its effect: the inform callback, if the change
-- is accepted.
--
-- Fuel and bounds. Only the second loop of prune_states can run for ever; `prune_from` gives `none` when
-- its fuel is spent. With a mark for each allowed entry a fuel of 9 is enough for the 8 cells. The loop
-- of select_evaluation reads at most 8 cells, so that its 9 rounds are enough. A read of the log has as
-- many rounds as bytes are asked for, and an entry is a byte at least; purge_log needs a round for each
-- block.
--
-- Not modelled: the kernel (its cpu masks, run queues, frequency drivers and timers are parameters or are
-- left out), the probes, and so the counts of a task that they collect, the other architectures of the pmu
-- driver, the user space tools, and what is only printed.
pub mod Common
pub mod Kernel
pub mod States
pub mod Tasks
pub mod Search
pub mod MapIpc
pub mod Cpufreq
pub mod Mutate
pub mod Hwcounters
pub mod Tsc
pub mod Load
pub mod Log
pub mod Migrate
pub mod Pds
pub mod Pmu
