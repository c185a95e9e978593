-- ===== src/Evidence.antt =====
-- The evidence policy of an episode: which observations count as independent, and what follows.
pub mod Select
pub mod Recalculate
