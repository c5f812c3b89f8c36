-- ===== src/Stream/Invariant.antt =====
-- The invariant of the streaming contract: of one stream, of the books, and of the whole state.
pub mod Valid
pub mod Books
pub mod Sound
