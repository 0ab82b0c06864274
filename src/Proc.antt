-- ===== src/Proc.antt =====
-- Processes: src/ape_proc.c.
pub mod Vectors
pub mod Attr
pub mod Passed
pub mod Environment
pub mod Wait
pub mod Closed
pub mod Found
pub mod Waiting
pub mod Create
pub mod Names
