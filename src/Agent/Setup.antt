-- ===== src/Agent/Setup.antt =====
-- cmd/agent/main.go: the program's command line, its setup and its updates.
pub mod Input
pub mod Choice
pub mod CommandLine
pub mod Resolve
pub mod Install
mod Tests
