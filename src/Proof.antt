-- ===== src/Proof.antt =====
-- rust/issuer-service/src/main.rs: the verifiers of signed evidence that the endpoints call.
pub mod Jws
pub mod Dpop
pub mod Credential
pub mod Emrtd
pub mod Pid
