-- ===== src/Lib.antt =====
-- A model of the firmware of the UsbGpib adapter: the program in SW/TestAndMeasurement that stands
-- between a USBTMC host and an instrument on the GPIB bus, and the boot loader in SW/MassStorage.
--
-- The state of the firmware is one record, State.World: the static variables of gpib.c, miniparser.c
-- and TestAndMeasurement.c, the bus lines that the port registers drive, the EEPROM, and two records of
-- what was seen: `log` holds what an observer of the bus sees (bytes accepted with ATN low or high,
-- pulses on IFC, changes of REN), `events` what the host sees of the USB endpoints. A C function is a
-- function from a state to an outcome (Exec): it returns, it waits on, it reads outside an array, or it
-- leaves the program for the boot loader or a reset. `Ensures` states what holds where a run returns and
-- that it reads in bounds; `Returns` states that it does return. One read out of bounds is no such outcome:
-- where no character is stored, the loop that strips underscores reads UnicodeString[-1]; its value is modelled
-- as the two bytes of the header that lie there (Device.Identify.last_read).
--
-- The surroundings are the record State.Env: what the pins read at each access to a port register, and
-- whether the timer interrupt came before it; the bytes and the control requests of the host; the answers
-- of the USB library on the state of the endpoints; the signature bytes of the chip. The theorems hold for
-- every such record, so for every device and every host, but where they say more.
--
--   Base, Exec, State, Endpoint   shared names and lemmas, outcomes, the state, the USB library's calls
--   Parser              SW/TestAndMeasurement/miniparser.c: the table, `parser_add`, the numbers of
--                       `!addr`, the commands; Parser/Message: `ProcessInternalCommand`;
--                       Parser/Grammar: the commands as a list of texts, and the table against it
--   Gpib                SW/TestAndMeasurement/gpib.c and gpib_priv.h: Lines (macros, timer interrupt,
--                       `gpib_init`), Handshake (`gpib_tx_quick`, `gpib_readdat_quick`), Timeouts,
--                       Connection (the detection of a disconnected device), Commands
--                       (`gpib_make_listener` and the other sequences); Messages (what the bus carries
--                       apart from commands); Handshake/Paced (waits that are polled when the timer has
--                       ticked)
--   Control             the control requests of SW/TestAndMeasurement/TestAndMeasurement.c; Control/Deferred (a
--                       status request that waits during a write), Control/Aborting (a host that
--                       aborts until the transfer has ended)
--   Transfer            its bulk transfers: `ProcessSentMessage` and `GetNextMessage`; Transfer/Stream (the
--                       two routines that write to an endpoint), Header (`ReadTMCHeader`,
--                       `WriteTMCHeader`), Reset (`TMC_resetstates` and the end of `TMC_Task`), Task;
--                       Interrupted and Gathered (the transfers while control requests arrive), Carried
--                       (those for the status byte included), Aborted (the split requests to their
--                       end, with their answers), Task/Returned (where `TMC_Task` returns), Run (what it keeps valid)
--   Device              Search (`gpib_search` of gpib.c, `findGpibdevice`), Serial
--                       (`TMC_SetInternalSerial`), Identify (`identifyGpibDevice`; Allowed has
--                       the characters that may be left in the serial number), Descriptor
--                       (`CALLBACK_USB_GetDescriptor` of Descriptors.c)
--   Startup             `main` of TestAndMeasurement.c: the start-up with the settings and the serial
--                       number in the EEPROM (Remembered, Termination, Reported), the loop with the pulse
--                       indicator (Pulse), the states that its rounds reach (Rounds)
--   Bootloader          SW/MassStorage, the boot loader: Fat, Flash and Disk (Lib/VirtualFAT.c with
--                       BootloaderAPI.c: the file allocation table, the blocks of FLASH.BIN, the whole
--                       disk, and the files as a host finds them), Scsi (Lib/SCSI.c), Main
--                       (BootloaderMassStorage.c)
--   Samples             concrete states and surroundings for the tests, which stand in a module Tests
--                       of each part
--
-- The parts meet as in the code: `TMC_Task` calls the transfers; they call the sequences of gpib.c with a
-- timeout function; for transfers that is `tmc_gpib_write_timedout`, which runs the USB task, so that a
-- control request is handled in the middle of a wait. Gpib/Timeouts has the interface between the bus and
-- its callers: IsWatch is what a run asks of a timeout function, IsCountdown what the two countdowns give;
-- Control/Watch fills it for `tmc_gpib_write_timedout`.
--
-- Bounds. A wait for a pin is followed for `Env.polls` rounds and is `waiting` after that, since the
-- code itself waits without a bound of its own: what ends it is the pin or the timeout function. With
-- a countdown that is polled in every round, more rounds than the countdown holds are enough; so are, for a
-- wait that the host aborts, the rounds of `longest_wait` up to the abort, with a timer tick for each poll. The loops
-- of the stream routines and of `identifyGpibDevice` are followed for as many rounds. The search needs 63
-- rounds, all other loops are bounded by a length. Arithmetic on uint8_t wraps where the code lets it.
-- Plain `char` is unsigned, as the build sets it.
--
-- The boot loader has a state of its own. Its chip is the record Bootloader.Flash.Spm: the operations of
-- the self-programming with what the data sheet says of them. A command comes with the blocks of data that
-- follow it, a round of the main loop with the command that the USB library hands over in it, if any. The
-- numbers are those of an ATmega32U4 with a boot section of 4 KB and an auxiliary one as large.
--
-- Not modelled: the delays, the contents of the USB descriptors, the clock and watchdog registers, a
-- transfer of the boot loader's that the host breaks off, and the host programs in SW/UsbGpibGUI and
-- SW/NiceGUI. The USB library's own code is not in the repository: its calls are events, its answers are
-- part of the surroundings, and `Endpoint_Write_Stream_LE` with no byte count is taken to write all.
pub mod Base
pub mod State
pub mod Exec
pub mod Parser
pub mod Gpib
pub mod Endpoint
pub mod Control
pub mod Transfer
pub mod Device
pub mod Startup
pub mod Bootloader
pub mod Samples
