-- ===== src/Console.antt =====
-- cmd/signer-console: the console that admits edge nodes.
pub mod State
pub mod Values
pub mod Revoked
pub mod Clients
pub mod Registrations
pub mod Install
pub mod Calls
pub mod Delivery
pub mod Admission
pub mod Used
pub mod Once
pub mod Ids
pub mod Distinct
pub mod Approval
pub mod Session
pub mod Summary
pub mod Login
pub mod Access
