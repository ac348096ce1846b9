-- ===== src/Device.antt =====
-- The search for a device on the bus and its name: `gpib_search` of gpib.c, and `findGpibdevice`,
-- `TMC_SetInternalSerial` and `identifyGpibDevice` of TestAndMeasurement.c.
pub mod Descriptor
pub mod Search
pub mod Serial
pub mod Identify
mod Tests
