-- ===== src/Smtp.antt =====
-- src/smtp/server.rs: the SMTP server, its states and handlers, and what is proved of them.
pub mod Crates
pub mod State
pub mod Replies
pub mod Delivery
pub mod Mail
pub mod Rcpt
pub mod Receive
pub mod Login
pub mod Handle
pub mod Session
pub mod Reading
pub mod Body
pub mod Invariant
pub mod Outgoing
pub mod Patterns
pub mod Relay
pub mod Calm
pub mod Bounds
pub mod Unchecked
pub mod Transaction
pub mod Phases
