-- ===== src/Resolver.antt =====
-- The resolver (src/resolver/): the package of a candidate, the tie-breaks among candidates of one
-- name, and the edits for imports.
mod Tests
pub mod Names
pub mod TieBreak
pub mod Hierarchy
pub mod ImportEdit
pub mod Gradle
