-- ===== src/Budget.antt =====
-- The prompt's size: the heuristic price of text, the token meter, trimming and compaction.
pub mod Tokens
pub mod Chat
pub mod Meter
pub mod Trim
pub mod Compact
