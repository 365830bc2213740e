-- ===== src/Gateway.antt =====
-- corporal/httpgateway: what stands between the clients and the homeserver.
pub mod Policycheck
pub mod Interceptor
pub mod RestAuth
pub mod HookRunner
pub mod Handlers
