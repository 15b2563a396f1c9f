-- ===== src/Tests.antt =====
-- Runs of the model on concrete data, at which the theorems' conditions hold.
mod Data
mod Tokens
mod Messages
mod Schema
mod Blocks
mod Safety
mod Images
mod Resizer
mod Metadata
mod Daemon
mod Main
mod Rounds
