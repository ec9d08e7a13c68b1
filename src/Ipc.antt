-- ===== src/Ipc.antt =====
-- src/ipc.rs: the VVMX records between a session and its clients.
pub mod Bytes
pub mod Result
pub mod Preface
pub mod Record
pub mod Media
