-- ===== src/System.antt =====
-- src/state.rs and the tasks of a running bot: the shared state, the single stores that the tasks
-- make, and all interleavings of the feed, the subscriptions, the sends and the engine's loads.
pub mod State
pub mod Stores
pub mod Bot
pub mod Step
pub mod Refinement
pub mod Within
pub mod Numbers
pub mod Failing
pub mod Shadow
pub mod Drains
pub mod Trace
mod Examples
