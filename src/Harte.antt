-- ===== src/Harte.antt =====
-- tools/run_harte.cpp: the runner of the per-opcode test files. The bus that it logs with is
-- Bus/Recording, the cursor that it parses with is Json.
pub mod Case
pub mod Judge
pub mod Report
pub mod File
pub mod Main
