-- ===== src/Objects/Wire.antt =====
-- The requests and responses of lib/objects on the wire.
pub mod Carries
pub mod Encoding
pub mod Rows
pub mod Requests
pub mod Responses
pub mod RoundTrip
pub mod Bounds
