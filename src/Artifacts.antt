-- ===== src/Artifacts.antt =====
-- The artifacts plugin (plugins/artifacts): the line diff and the resolution of groups.
pub mod Diff
pub mod Grouping
pub mod Record
pub mod Lines
