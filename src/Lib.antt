-- ===== src/Lib.antt =====
-- matrix-corporal keeps the users and rooms of a Matrix homeserver as a policy says. It has two
-- halves. The reconciler computes, from the policy and the homeserver's current state, the actions
-- that bring the one to the other, and carries them out through a connector. The HTTP gateway stands
-- before the homeserver: it authenticates the policy's users, checks what they ask for against the
-- policy, and runs the policy's hooks. The policy store holds the current policy for both.
--
-- The parts and their files (paths of the source are under corporal/):
-- - Base: the shared names, with strings as lists of bytes (Base/Strings), Go's maps as association
--   lists (Base/Maps), `int` as ℤ (Base/Int) and `(value, error)` as a result (Base/Results).
-- - Util, Matrix: util/util.go and matrix/util.go, constants.go. Times of pauses are numbers of
--   seconds that the retry loop returns. Matrix/Mapping is matrix/mapping.go, the resolver of access
--   tokens, with a step relation for calls that overlap.
-- - Http: requests and responses, with the writer of httphelp/response_bound_http_writer.go
--   (Http/ResponseBound).
-- - Hook: hook/hook.go, hook_match.go, event_types.go and actions.go. A rule comes back from
--   validation and from matching with its compiled pattern, since the source stores it through a
--   pointer. A panic is an error value. Hook/Actions and Hook/Executor are executor.go,
--   Hook/Execution is execution_result.go and http.go, and Hook/Consulting is
--   rest_service_consulting.go. A response modifier is a function on the response and on what its
--   closure reaches.
-- - UserAuth: userauth/, the authenticators as records of one operation.
-- - Policy: policy/policy.go, checker.go (Policy/Checker), validator.go (Policy/Validator) and store.go
--   (Policy/Store, a step relation whose steps are what the store's two locks keep together, and the
--   sends of the goroutines that `Set` starts). Policy/Providers has the loads of policy/provider/http.go,
--   static_file.go and last_seen_store_policy.go, which take the files and requests as parameters.
-- - Avatar: avatar/avatar.go.
-- - Connector: connector/state.go, and the operations of interface.go as a record that the
--   reconciler takes as a parameter (Connector/Interface). Connector/Tokens is the access token
--   context, Connector/Api is api.go and Connector/Synapse is synapse.go, whose connector fills the
--   record. What package gomatrix does is the record of Connector/Client.
-- - Reconciliation: reconciliation/actions.go and state.go; computator/computator.go, one function for
--   each of its methods and loops (Reconciliation/Computator, Reconciliation/Compute). What an action
--   does to a user's rooms is specified in Reconciliation/Effects.
-- - Reconciler: reconciliation/reconciler/reconciler.go, its handlers as code that works on a state
--   and may end with an error. Reconciler/StoreDriven is storedriven.go as a step relation: a step
--   leads from one point at which a goroutine waits, or holds the lock, to the next.
-- - Gateway: httpgateway/policycheck (Gateway/Policycheck), interceptor (Gateway/Interceptor),
--   handler/internal_rest_auth.go (Gateway/RestAuth), hookrunner (Gateway/HookRunner) and the handlers
--   (Gateway/Handlers), which work on the request, the world and the list of the responses given.
-- - HttpApi: the middleware of httpapi/server.go and the handlers of httpapi/handler/. What a handler
--   gives to `Respond` is the reply.
-- - Tests: examples, at which the theorems apply.
--
-- Loops are structural recursion on the lists that they walk, or on the attempts that are left. Only
-- the execution of hooks takes fuel, since a REST service may answer with a hook that consults a REST
-- service again, without end: one unit for each hook in such a chain.
--
-- Parameters stand for what is not the program's own: package regexp (`compile_error`,
-- `match_string`), the reading and writing of JSON, package net, hash functions, bcrypt, HTTP calls,
-- the LRU cache, random bytes, and the order in which Go walks a map (`range`).
--
-- Lists of pointers are lists of what they point to: a policy whose `users`, `hooks` or `joinedRooms`
-- has a null entry, at which the source panics, is not a policy of the model.
--
-- Not modelled: the tickers and file watchers of the policy providers, the routes,
-- wiring, configuration and logging. They are I/O, or are left for later.
pub mod Base
pub mod Util
pub mod Matrix
pub mod Http
pub mod Avatar
pub mod Hook
pub mod UserAuth
pub mod Policy
pub mod Connector
pub mod Reconciliation
pub mod Reconciler
pub mod Gateway
pub mod HttpApi
pub mod Tests
