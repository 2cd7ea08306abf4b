-- ===== src/Endpoint.antt =====
-- rust/issuer-service/src/main.rs: the endpoints of the authorization-code flow, each a function of
-- the state. Random values and clock readings are arguments. An endpoint that releases the lock
-- between two accesses is one step here; what other requests do in between concerns other keys.
pub mod Par
pub mod Offer
pub mod Authorize
pub mod Token
pub mod Credential
