-- ===== src/Reviews.antt =====
-- services/reviews.py: `resolve_review`, the human decision on an observation.
pub mod Request
pub mod Actions
pub mod Resolve
pub mod Outcomes
pub mod Branches
pub mod Soundness
pub mod Retried
