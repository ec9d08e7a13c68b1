-- ===== src/Session.antt =====
-- The logical parts of src/session.rs.
pub mod Tab
pub mod Paste
pub mod Display
