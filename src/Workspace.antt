-- ===== src/Workspace.antt =====
-- The workspace actor (src/workspace/): its state machine of scans and JAR crawls.
pub mod Root
pub mod Queue
pub mod Phase
pub mod Progress
pub mod Jar
pub mod Scan
mod Tests
pub mod Documents
pub mod Opened
