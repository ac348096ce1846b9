-- ===== src/Transfer/Run.antt =====
-- The runs of the main loop: `TMC_Task`, the control requests and the timer interrupt, in any order.
pub mod Guards
pub mod Settled
pub mod Interpreter
pub mod Commands
pub mod Messages
pub mod Served
pub mod Parts
pub mod Task
