-- ===== src/Edit.antt =====
-- internal/edit: what an edit of a file does to its text.
pub mod Text
pub mod Lines
pub mod Split
pub mod Offsets
pub mod Refines
pub mod Examples
