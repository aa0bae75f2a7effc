-- ===== src/Features.antt =====
-- Editor features (src/features/) that work on the lines of a document.

mod Tests
pub mod OnType
