-- ===== src/Shell.antt =====
-- Background shells: internal/tools/shell_registry.go and the handlers that use it.
pub mod Stream
pub mod Log
pub mod Process
pub mod Registry
pub mod Command
pub mod Watch
