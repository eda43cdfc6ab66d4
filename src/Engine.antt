-- ===== src/Engine.antt =====
-- seekserve-serve/src/engine.cpp: `SeekServeEngine`, the operations of the facade and the handlers of
-- the alerts, each one step on the engine's state.
pub mod State
pub mod Alerts
pub mod Torrents
pub mod Selection
pub mod Servers
pub mod Ticks
pub mod Restore
pub mod Saved
pub mod Control
pub mod Ops
pub mod Wiring
pub mod Gone
pub mod Requests
pub mod Removal
pub mod Streams
pub mod Sound
pub mod Invariant
pub mod Callback
pub mod Reach
mod Tests
