-- ===== src/StrictJson.antt =====
-- lib/ask_herdr_json.py: JSON values and their canonical form.
pub mod Values
pub mod Canonical
pub mod Errors
pub mod Digest
pub mod Integers
mod Tests
