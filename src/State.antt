-- ===== src/State.antt =====
-- The state of the firmware in SW/TestAndMeasurement: the static variables of gpib.c, miniparser.c
-- and TestAndMeasurement.c, the bus lines that the port registers drive, and what has been sent.
use usb_gpib.Base.{ℕ, Bool, List, Option}

-- What the pins read at one access to a port register. `true` is an electrically high line; `dio`
-- is PIND. `tick` says that the timer interrupt came before the access.
pub record Sample : Type 0 where
  pub dav : Bool
  pub ndac : Bool
  pub nrfd : Bool
  pub atn : Bool
  pub eoi : Bool
  pub srq : Bool
  pub boot_key : Bool
  pub dio : ℕ
  pub tick : Bool

-- What an observer of the bus has seen: bytes that the acceptors took, with ATN low (`command`) or
-- ATN high (`message`, with EOI), pulses on IFC, and changes of REN.
pub data BusEvent : Type 0 where
  command : ℕ → BusEvent
  message : ℕ → Bool → BusEvent
  interface_clear : BusEvent
  remote : Bool → BusEvent

-- The output lines: `true` where the direction register drives the line low. `dio` is DDRD, so a
-- one bit pulls its data line low. `led` is bit 5 of PORTF.
pub record Lines : Type 0 where
  pub atn : Bool
  pub ndac : Bool
  pub nrfd : Bool
  pub dav : Bool
  pub eoi : Bool
  pub ren : Bool
  pub ifc : Bool
  pub dio : ℕ
  pub led : Bool

pub data ConnectState : Type 0 where
  unknown disconnected connected : ConnectState

pub record Timer : Type 0 where
  pub div : ℕ  -- timer0_div, uint8
  pub ticked : Bool  -- timer0_ticked
  pub count_100ms : ℕ  -- timer0_100mscounter, uint8
  pub disconnect_counter : ℕ  -- s_gpib_disconnect_counter, uint8
  pub device_state : ConnectState  -- s_device_state

pub record Gpib : Type 0 where
  pub lines : Lines
  pub timer : Timer
  pub transaction_active : Bool  -- s_gpib_transaction_active
  pub terminator : ℕ  -- s_terminator
  pub terminator_enabled : Bool  -- s_terminator_enabled
  pub log : List BusEvent

-- `timeout_val` of gpib.c (uint16) and of TestAndMeasurement.c (uint32).
pub record Timeouts : Type 0 where
  pub search : ℕ
  pub main : ℕ

-- The statics of miniparser.c: `pparser_ps` as an offset into `cmd_parser`, and `addr[3]`.
pub record Parser : Type 0 where
  pub ps : ℕ
  pub decoding : Bool
  pub num0 : ℕ
  pub num1 : ℕ
  pub num_idx : ℕ

-- `internal_response_buffer` with its length and read position.
pub record Response : Type 0 where
  pub buffer : List ℕ
  pub len : ℕ
  pub rpos : ℕ

-- A call of the USB library that the host can observe, with the endpoint that is selected.
pub data UsbEvent : Type 0 where
  write : ℕ → ℕ → UsbEvent
  write_stream : ℕ → List ℕ → UsbEvent
  clear_in clear_out abort_in stall : ℕ → UsbEvent
  clear_setup status_stage attach detach : UsbEvent

-- The fields of `USB_ControlRequest` that the firmware reads.
pub record Request : Type 0 where
  pub request_type : ℕ
  pub request : ℕ
  pub value : ℕ
  pub index : ℕ

-- The flags and counters of TestAndMeasurement.c.
pub record Tmc : Type 0 where
  pub request_in_progress : ℕ
  pub in_reset : Bool  -- IsTMCBulkINReset
  pub out_reset : Bool  -- IsTMCBulkOUTReset
  pub handle_sdc : Bool
  pub handle_local_lockout : Bool
  pub handle_go_to_local : Bool
  pub handle_ren_control : ℕ
  pub handle_read_status : Bool
  pub read_status_tag : ℕ
  pub handle_rstb : Bool
  pub rstb_tag : ℕ
  pub rstb_status : ℕ
  pub write_busy : Bool  -- gpib_write_is_busy
  pub transfer_tag : ℕ
  pub last_transfer_length : ℕ
  pub parameter_set : Bool  -- s_nextwrite_mightbeparameterset
  pub pulse_indicator : ℕ
  pub remaining : ℕ  -- s_remaining_bytes_receive
  pub srq_status : ℕ
  pub last_complete : Bool  -- TMC_LastMessageComplete
  pub eom : Bool  -- TMC_eom
  pub in_complete : Bool  -- TMC_InLastMessageComplete

-- The selected endpoint; `taken` counts the bytes read from the OUT endpoint.
pub record Usb : Type 0 where
  pub selected : ℕ
  pub taken : ℕ
  pub events : List UsbEvent

-- `tmc_serial_string`: the size and the type that its header holds, and its characters.
pub record Serial : Type 0 where
  pub size : ℕ
  pub kind : ℕ
  pub text : List ℕ

pub record World : Type 0 where
  pub gpib : Gpib
  pub timeouts : Timeouts
  pub parser : Parser
  pub eeprom : ℕ → ℕ
  pub response : Response
  pub tmc : Tmc
  pub gpib_addr : ℕ
  pub serial : Serial
  pub usb : Usb
  pub now : ℕ

-- What lies outside the program: the levels of the pins at each access, the bytes that the host
-- sends, the control request that `USB_USBTask` meets at each moment, the USB library's answers on
-- the endpoints' state, the signature bytes of the chip, and for how many polls a wait is followed
-- before the run is reported as `waiting`.
pub record Env : Type 0 where
  pub pins : ℕ → Sample
  pub out_bytes : ℕ → ℕ
  pub out_received : ℕ → Bool
  pub control : ℕ → Option Request
  pub configured : ℕ → Bool  -- USB_DeviceState == DEVICE_STATE_Configured
  pub ready_error : ℕ → ℕ  -- Endpoint_WaitUntilReady
  pub allowed : ℕ → Bool  -- Endpoint_IsReadWriteAllowed
  pub signature : ℕ → ℕ
  pub polls : ℕ
