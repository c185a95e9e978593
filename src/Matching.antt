-- ===== src/Matching.antt =====
-- Candidate matching: domain/matching.py and services/candidates.py.
pub mod Score
pub mod Decide
pub mod Order
pub mod Decisions
pub mod Candidates
