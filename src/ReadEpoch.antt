-- ===== src/ReadEpoch.antt =====
-- lib/ask_herdr_project_read_epoch.py: one consistent reading of the three store heads.
pub mod Entries
pub mod Observation
pub mod Acquire
pub mod Status
pub mod Settled
pub mod Stable
pub mod Acquired
mod Tests
