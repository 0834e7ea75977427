-- ===== src/Dispatcher.antt =====
-- lsmf/production_dispatcher.py: `ProductionDispatcher`, whose coroutines interleave at their awaits.
pub mod State
pub mod Submit
pub mod Schedule
pub mod Weights
