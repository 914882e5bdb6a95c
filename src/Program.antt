-- ===== src/Program.antt =====
-- The program as a whole: proj/src/main.rs.
pub mod Main
pub mod Arguments
pub mod Success
