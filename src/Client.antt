-- ===== src/Client.antt =====
-- src/smtp/client.rs: the client that delivers queued mail, and the client's errors of
-- src/smtp/error.rs.
pub mod Errors
pub mod Network
pub mod Session
pub mod Transcript
pub mod Hosts
pub mod Popping
pub mod Discovery
pub mod Order
pub mod Lookup
pub mod Found
pub mod Count
pub mod Calls
pub mod Success
pub mod Bounds
mod Names
mod Logged
pub mod Safe
