-- ===== src/LaneTurn/Tests.antt =====
-- Runs of the reducer of lib/ask_herdr_lane_turn.py on concrete events.
mod Samples
mod Runs
mod Policy
mod Modes
mod AtHistories
mod AtEvents
