-- ===== src/Keyless.antt =====
-- internal/keyless: the signer's admission control, its wire protocol, its HTTP handlers and the
-- remote signer that calls them.
pub mod Base64
pub mod Protocol
pub mod State
pub mod Load
pub mod Authenticate
pub mod Limits
pub mod Server
pub mod Keys
pub mod Client
