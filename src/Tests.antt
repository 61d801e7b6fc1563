-- ===== src/Tests.antt =====
-- Concrete inputs, runs of the definitions, and instances of theorems.
mod Demo
mod Evaluating
mod Configuring
mod Targets
mod Serving
mod Credentials
mod Hashing
mod Signing
mod Requesting
mod Toggling
