-- ===== src/Security.antt =====
-- internal/security/commands.go: how a shell command is cut into segments and judged.
pub mod Segments
pub mod Readonly
pub mod Policy
