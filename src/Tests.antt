-- ===== src/Tests.antt =====
-- A sample of Lua and of APR to run the bindings on, and runs of the theorems about them.
pub mod Sample
mod FileRuns
mod DirRuns
mod ExtraRuns
mod ValueRuns
mod ProcRuns
mod ApeRuns
mod WideRuns
mod SearchRuns
mod ShellRuns
