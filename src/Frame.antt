-- ===== src/Frame.antt =====
-- frame_handler.hpp, class frame_handler: packets of one stream in order, the codestream of the
-- frame in flight, and the callbacks of its consumers.
-- The tile handler and the header parser are a parameter (Frame.State.Parser).
pub mod Calls
pub mod State
pub mod Handlers
pub mod Cases
pub mod Contract
pub mod Followed
pub mod Delivery
pub mod Slabs
pub mod Capacity
pub mod Reports
pub mod Drained
mod Tests
