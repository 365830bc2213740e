-- ===== src/Tests.antt =====
-- Examples at which the theorems apply, and runs of the code on small inputs.
mod Samples
mod Accounts
mod Policies
mod Rooms
mod Gateway
mod Hooks
mod Connectors
mod Retries
mod Providers
mod Tokens
mod Api
