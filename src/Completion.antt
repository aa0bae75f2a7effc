-- ===== src/Completion.antt =====
-- Completion (src/resolver/complete.rs): the scoring of names and the collection of bare names.
pub mod Matching
pub mod Acronym
pub mod Bare
pub mod Cross
pub mod Answer
pub mod Capped
pub mod Collected
pub mod Labels
mod Tests
