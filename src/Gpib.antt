-- ===== src/Gpib.antt =====
-- SW/TestAndMeasurement/gpib.c and gpib_priv.h: the GPIB controller.
pub mod Connection
pub mod Lines
pub mod Handshake
pub mod Commands
pub mod Timeouts
pub mod Sequence
pub mod Messages
mod Tests
