-- ===== src/Nft.antt =====
-- contracts/stream-nft/src/lib.rs: a token for each stream, whose transfer reassigns the stream.
pub mod Token
pub mod Inversion
pub mod Tally
pub mod Soundness
pub mod Linked
pub mod Examples
