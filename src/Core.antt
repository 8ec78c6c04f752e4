-- ===== src/Core.antt =====
-- `TxCore` (tx-core/src/core.rs): the public operations over the store, tmux, the engines and the
-- event log.
pub mod World
pub mod Read
pub mod Archive
pub mod Change
pub mod Stop
pub mod Message
pub mod Env
pub mod Launch
pub mod Evolve
pub mod Refine
pub mod Outcome
pub mod Run
