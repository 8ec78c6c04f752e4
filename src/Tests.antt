-- ===== src/Tests.antt =====
-- A small world to run the operations in, and the theorems at concrete inputs.
pub mod Sample
mod Runs
mod Safety
mod Parts
mod Typing
mod Client
mod Diff
mod Groups
mod Home
mod Roles
mod Plugins
