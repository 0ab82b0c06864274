-- ===== src/File.antt =====
-- Files and directories: src/ape_file.c.
pub mod Handles
pub mod Paths
pub mod Open
pub mod Info
pub mod Dirs
pub mod Names
pub mod Closed
pub mod ClosedDirs
pub mod Fields
pub mod Shown
pub mod Pushed
pub mod Filled
pub mod Reading
pub mod Lifecycle
pub mod Effects
