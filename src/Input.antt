-- ===== src/Input.antt =====
-- The input parsers of src/client_input.rs.
pub mod Event
pub mod Float
pub mod Mouse
pub mod Prefix
