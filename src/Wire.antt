-- ===== src/Wire.antt =====
-- The shared-memory wires of src/tateyama/transport/wire.h.
pub mod Header
pub mod Codec
pub mod Ring
pub mod Simple
pub mod Stream
pub mod Endpoints
mod Tests
pub mod ResultSet
pub mod Pool
