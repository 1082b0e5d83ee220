-- ===== src/Tests.antt =====
-- Runs of the models at concrete inputs.
mod Keyless
mod Server
mod Edge
mod Console
mod Session
mod Certificates
mod Routes
mod Pipeline
mod Wizard
mod Enroll
mod Rate
mod Revoked
mod Tunnel
mod Signers
