-- ===== src/Connector.antt =====
-- corporal/connector: what the homeserver reports, and how it is asked to change.
pub mod State
pub mod Interface
pub mod Client
pub mod Tokens
mod Calls
pub mod Api
pub mod Synapse
