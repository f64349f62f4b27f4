-- ===== src/Cmd.antt =====
-- cmd/api/main.go: the parts of the service, wired for production, and the run of the process.
pub mod Wiring
pub mod Run
