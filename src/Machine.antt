-- ===== src/Machine.antt =====
-- The machine that a binding function of src/ape_*.c runs on: Lua values, the Lua stack of the call,
-- userdata blocks and tables, and the calls that leave these files (APR and the moon library).
mod Values
mod Calls
mod Monad
mod Stack
mod ApeStatus
mod Effects
pub use Values.*
pub use Calls.{
  Call, SeekWhere, PipeBlock, Standard, PathFlags, Encoding, CommandType, PipeMode, KillCondition,
  Status, Answer, Apr,
}
pub use Monad.*
pub use Stack.*
unfoldable pub use ApeStatus.*
pub use Effects.*
