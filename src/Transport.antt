-- ===== src/Transport.antt =====
-- The provision of lib/ask_herdr_herdr_transport.py and its journal in lib/ask_herdr_journaled_provision.py.
pub mod Proofs
pub mod Actions
pub mod Commands
pub mod Sessions
pub mod Workspaces
pub mod Verification
pub mod Provision
pub mod Entries
pub mod Journal
pub mod Triples
pub mod WriteAhead
pub mod Readers
pub mod Stages
pub mod Steps
pub mod Discipline
pub mod Results
pub mod Adoption
pub mod RequestIds
mod Tests
