-- ===== src/Lib.antt =====
-- A verification library for VCIssuer, an issuer of digital credentials over OpenID4VCI.
--
-- The program has two parts. rust/issuer-core/src/lib.rs is a pure kernel that decides whether a
-- signing command may be given. rust/issuer-service/src/main.rs is the service around it: it keeps a
-- volatile state behind one lock, and its HTTP handlers lead a wallet from an offer or a pushed
-- request over an authorization code and an access token to a credential. Every credential passes
-- the proofs of the wallet, the evidence of the configuration and the kernel.
--
-- Kernel             the data and the functions of issuer-core: may_issue, authorize_sign and the
--                    powers of a mandate. Kernel/Issuance, Kernel/Mandate, Kernel/Powers and
--                    Kernel/Taxonomy hold their theorems.
-- Profile            the configurations of credentials and valid_scope.
-- Text, Prelude      what the handlers use of Rust's str, and shared names and lemmas.
-- Oauth              OAuthError, and results with the operators of a do block.
-- Outcome            results whose error type is an argument, for the codec and for App Attest.
-- Platform           the other packages: base64, SHA-256, ECDSA, ML-DSA, JSON, URLs, calendar. It is
--                    a record of functions that every definition takes as an argument; nothing is
--                    assumed of them.
-- Proof              verify_dpop, verify_credential_proof, verify_pid_binding, verify_emrtd_evidence
--                    and what they share.
-- Gate               authorize_kernel, which builds the kernel's session and request.
-- Table              the maps and sets of the state.
-- Tlsn               verify_tlsn_artifact and reserve_tlsn_session.
-- State              VolatileState with its records, and handlers: functions of the state that
--                    return the answer and the state that is left, also where they fail.
-- Endpoint           par, create_credential_offer, build_tlsn_offer, get_credential_offer,
--                    authorize, token, nonce and credential, each with all of its early returns.
-- Hybrid             rust/issuer-service/src/hybrid_codec.rs: purposes, context and signed bytes.
--                    Hybrid/Envelope and Hybrid/Decode hold tbs, encode, decode and verify,
--                    Hybrid/Container the containers of keys and signatures, Hybrid/Signer
--                    rust/issuer-service/src/hybrid_signer.rs; the other files below them hold
--                    their theorems.
-- Attest             rust/issuer-service/src/app_attest.rs; Attest/Verify holds verify_attestation
--                    and verify_assertion, Attest/Endpoints the handlers of main.rs that call them.
-- Liveness           rust/issuer-service/src/iproov.rs.
-- Capture            rust/issuer-service/src/capture.rs and the capture handlers of main.rs.
-- Flow               the handlers as steps of one system, reachability, and the theorems on
--                    sequences of calls.
-- Tests              concrete inputs, whole issuances and one application of each theorem.
--
-- CBOR (Hybrid/Cbor), X.509 (Certificates in Attest), the HTTP client of the liveness provider
-- (Provider in Liveness), the encoders behind a capture session (Encoders in Capture) and the keys,
-- AES-GCM and the file of the hybrid signer (Custody in Hybrid/Signer) are parameters like Platform. The theorems on the codec name what they rely on: `Patterns`, that the
-- functions which stand for constructors and patterns of a CBOR value undo each other, and
-- `ReadsBack` for one value, that the bytes written for it are read as it. The theorems on
-- the hybrid signer rely on matching pairs of keys (`ClassicalKey`, `StoredPair`) and on AES-GCM
-- opening what it sealed (`Unwraps`). Otherwise ECDSA, ML-DSA, hashing and certificates have no
-- hypotheses: a theorem says which checks were made and of which bytes.
--
-- Random values and clocks are arguments of a call. `Flow.Fresh` says that a random token that
-- becomes a code or a nonce is new in its table; no other freshness is assumed. A handler is one step:
-- each takes the lock once for what it changes. par reads an offer under one lock and stores the
-- request under another; offers are not changed in between except by insertion under a new key.
-- submit_pid_capture_evidence awaits the network between its two locks, so it is in two parts:
-- begin_capture only reads the state, and finish_capture takes whatever state it finds.
--
-- Identifiers, instants and sizes are natural numbers. Additions saturate at the bound of u64 where
-- the code saturates, and the addition of 18 years is that of an i32 in a build without overflow
-- checks. There is no fuel: the loops of the code run over lists and texts.
--
-- Not modelled: the encoders and signers behind `credential`, whose answer here is the encoder with
-- its arguments; the `expect` on the signer of a configuration is part of the signers.
-- Reachability in Flow is about the eight handlers of Endpoint; the App Attest calls have sequences of
-- their own in Attest/Counts, and the capture handlers have theorems for any state.
-- tlsn_demo_offer calls a notary service and then build_tlsn_offer. The push messages of
-- rust/issuer-service/src/apns.rs with notifications_register, the client in svipe.rs, the file that
-- keeps the instances of App Attest, env_file.rs, activechain_schema.rs, the wrapping key of
-- hybrid_signer.rs and signer.rs are calls of a service, of files or of the Keychain; metadata, routing and start-up
-- change no state.
pub mod Prelude
pub mod Kernel
pub mod Text
pub mod Oauth
pub mod Outcome
pub mod Platform
pub mod Profile
pub mod Proof
pub mod Gate
pub mod Table
pub mod Tlsn
pub mod State
pub mod Endpoint
pub mod Flow
pub mod Hybrid
pub mod Attest
pub mod Liveness
pub mod Capture
pub mod Tests
