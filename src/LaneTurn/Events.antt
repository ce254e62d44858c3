-- ===== src/LaneTurn/Events.antt =====
-- The events of lib/ask_herdr_lane_turn.py: records with the validators of their `__post_init__`.
pub mod Prepare
pub mod Claim
pub mod Effects
pub mod Evidence
pub mod Dispatch
pub mod Observations
pub mod Authority
