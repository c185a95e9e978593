-- ===== src/Dispatch.antt =====
-- services/agent_dispatcher.py: the dispatcher of the private agent media batches.
pub mod Rows
pub mod Transport
pub mod Finish
pub mod Submit
pub mod Complete
pub mod Poll
pub mod Cancel
pub mod Handlers
pub mod Claim
pub mod Runs
