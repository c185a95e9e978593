-- ===== src/Detection.antt =====
-- services/detection.py: `process_detection`, the intake of one observation of a source.
pub mod Request
pub mod Sources
pub mod Place
pub mod Record
pub mod Process
pub mod Placed
pub mod Guard
pub mod Refused
pub mod Soundness
