-- ===== src/Client.antt =====
-- The terminal client (tx-client): the form that edits an agent's name, tags and group.
pub mod Chars
pub mod Form
pub mod Decoder
pub mod Paint
