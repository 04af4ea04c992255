-- ===== src/Operations.antt =====
-- include/mos6502/operations.hpp: what an instruction does, apart from where. An operation that
-- touches the registers alone is a function on them.
pub mod Alu
pub mod Reads
pub mod Writes
pub mod Shifts
pub mod Implied
pub mod Branches
pub mod Special
pub mod Ranges
pub mod Sequences
