-- ===== src/Incident.antt =====
-- The registry of incidents and their episodes: lifecycle, public visibility and transitions.
pub mod StateMachine
pub mod Visibility
pub mod Rows
pub mod Lifecycle
pub mod FireId
pub mod Create
pub mod Transition
pub mod Sound
