-- ===== src/Diag.antt =====
-- components/diag: what the program keeps for a look after a crash.
pub mod BlackBox
