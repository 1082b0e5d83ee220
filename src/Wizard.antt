-- ===== src/Wizard.antt =====
-- cmd/setup-wizard: the local wizard that installs an edge node or the trusted center.
pub mod EnvFile
pub mod Sorted
pub mod Plan
pub mod EdgeNode
pub mod Trusted
pub mod Install
pub mod Finished
pub mod Order
pub mod Installed
pub mod Prepared
