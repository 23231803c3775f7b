-- ===== src/Tests.antt =====
-- Concrete third-party code for tests, and the theorems at concrete inputs.
mod Logins
mod Maps
mod Library
mod Samples
mod Mails
mod Witnesses
mod Deliveries
mod Hosts
mod Queues
mod Remote
mod Start
mod Running
mod Mocks
mod Patterns
mod Plain
mod Senders
mod Transactions
