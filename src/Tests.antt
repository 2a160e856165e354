-- ===== src/Tests.antt =====
-- Runs of the model at concrete inputs.
mod Keys
mod Stores
mod Channels
mod Sessions
mod Settings
mod Attempts
