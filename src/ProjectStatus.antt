-- ===== src/ProjectStatus.antt =====
-- lib/ask_herdr_project_status.py: the metadata of one durable operation in a snapshot.
pub mod Find
pub mod Entries
pub mod Operations
pub mod Cursor
pub mod RoundTrip
pub mod Select
pub mod Pages
pub mod Positions
pub mod Enumeration
pub mod Readers
pub mod Stale
pub mod Order
pub mod Joins
pub mod Bound
mod Tests
mod PageTests
