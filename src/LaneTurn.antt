-- ===== src/LaneTurn.antt =====
-- ask_herdr_lane_turn.py: the lane and turn authority reducer.
pub mod Kinds
pub mod Guards
pub mod Events
pub mod State
pub mod Correlation
pub mod Topology
pub mod Settlement
pub mod Delivery
pub mod Response
pub mod Reducer
pub mod Steps
pub mod Frame
pub mod Outcome
pub mod Promotion
pub mod Provisioning
pub mod Commands
pub mod Anchors
pub mod NativeIdentity
pub mod Release
pub mod Permanence
pub mod Invariant
pub mod Idempotence
pub mod Histories
pub mod Stages
pub mod Quarantine
pub mod Delivered
mod Tests
