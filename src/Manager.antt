-- ===== src/Manager.antt =====
-- src/ActivityManager.cpp with the handlers of src/Activity.cpp that call it: who may run, and what
-- happens when an Activity starts, runs, ends, restarts or is requeued. The calls go back and forth
-- between the two classes; the children hold them from the innermost outwards.
pub mod Run
pub mod Timing
pub mod Ending
pub mod Handlers
pub mod Family
pub mod Control
pub mod Registry
pub mod Calls
pub mod Queues
