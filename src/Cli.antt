-- ===== src/Cli.antt =====
-- The command line: cli/args.rs. An argument is what lexopt returns, lossily read as a text.
mod Tests
pub mod Outcome
pub mod Flags
pub mod Build
pub mod Accepted
pub mod Ends
pub mod Place
