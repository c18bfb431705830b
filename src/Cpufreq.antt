-- ===== src/Cpufreq.antt =====
-- Module/seeker-cpufreq: the governor that sets the frequency of each cpu by a state's number.
pub mod Users
pub mod Freq
pub mod Tables
pub mod Tests
