-- ===== src/Provenance.antt =====
-- tools/provenance/src/lib.rs: the record of what a release is made of, its generation and its
-- verification.
pub mod Types
pub mod Artifacts
pub mod Verify
pub mod Exactness
pub mod Generate
pub mod SelfCheck
pub mod RoundTrip
pub mod Examples
