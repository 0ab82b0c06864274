-- ===== src/Extra.antt =====
-- The functions that the build tool adds to APR: src/ape_extra.c.
pub mod Dirsep
pub mod Names
pub mod Search
pub mod HashFile
pub mod Collect
pub mod Collecting
pub mod Glob
pub mod Globbing
pub mod Listing
pub mod Wide
pub mod Codec
pub mod Encode
pub mod Upper
pub mod Ucs2
pub mod Registered
pub mod Suffix
pub mod Candidates
pub mod Find
pub mod Located
pub mod PathSearch
pub mod ExecFound
pub mod ExecLoop
pub mod FindExec
pub mod HashRun
pub mod Closing
pub mod Hashing
