-- ===== src/Connection.antt =====
-- `connection_queue` of src/tateyama/transport/wire.h: the slots through which clients ask a
-- server for a session.
pub mod Indexes
pub mod Queue
pub mod Slots
pub mod Rings
pub mod Invariant
pub mod Requests
pub mod Answers
pub mod Release
pub mod Created
pub mod Reached
pub mod Overbooking
mod Tests
