-- ===== src/Samples.antt =====
-- Concrete states and surroundings that the tests run the code in.
use usb_gpib.Base.{ℕ, true, false, ◌%◌, ◌==◌, List, [], ◌∷◌, none, get_or}
use usb_gpib.State.{World, Gpib, Lines, Sample, Env, Tmc, disconnected}

-- A device that is always ready; DAV goes up and down with the time.
abbrev pub ready_pins : ℕ → Sample
ready_pins n = record {
  dav = n % 2 == 1;
  ndac = true;
  nrfd = true;
  atn = true;
  eoi = true;
  srq = true;
  boot_key = true;
  dio = 0;
  tick = false;
}

-- The surroundings with these pins and these bytes from the host.
abbrev pub surroundings : (ℕ → Sample) → List ℕ → Env
surroundings pins bytes = record {
  pins = pins;
  out_bytes = λ n. get_or bytes n 0;
  out_received = λ n. true;
  control = λ n. none;
  configured = λ n. true;
  ready_error = λ n. 0;
  allowed = λ n. true;
  signature = λ n. n;
  polls = 600;
}

abbrev pub ready_env : Env
ready_env = surroundings ready_pins []

abbrev pub idle_lines : Lines
idle_lines = record {
  atn = false;
  ndac = false;
  nrfd = false;
  dav = false;
  eoi = false;
  ren = true;
  ifc = false;
  dio = 0;
  led = true;
}

abbrev pub idle_gpib : Gpib
idle_gpib = record {
  lines = idle_lines;
  timer = record {
    div = 0;
    ticked = false;
    count_100ms = 0;
    disconnect_counter = 0;
    device_state = disconnected;
  };
  transaction_active = false;
  terminator = 10;
  terminator_enabled = false;
  log = [];
}

abbrev pub idle_tmc : Tmc
idle_tmc = record {
  request_in_progress = 0;
  in_reset = false;
  out_reset = false;
  handle_sdc = false;
  handle_local_lockout = false;
  handle_go_to_local = false;
  handle_ren_control = 0;
  handle_read_status = false;
  read_status_tag = 0;
  handle_rstb = false;
  rstb_tag = 0;
  rstb_status = 0;
  write_busy = false;
  transfer_tag = 0;
  last_transfer_length = 0;
  parameter_set = false;
  pulse_indicator = 0;
  remaining = 0;
  srq_status = 0;
  last_complete = true;
  eom = false;
  in_complete = true;
}

-- After a start, with a countdown of three calls.
abbrev pub idle : World
idle = record {
  gpib = idle_gpib;
  timeouts = record { search = 0; main = 3 };
  parser = record { ps = 0; decoding = false; num0 = 0; num1 = 0; num_idx = 255 };
  eeprom = λ a. 255;
  response = record { buffer = 0 ∷ 0 ∷ 0 ∷ 0 ∷ 0 ∷ 0 ∷ 0 ∷ 0 ∷ []; len = 0; rpos = 0 };
  tmc = idle_tmc;
  gpib_addr = 1;
  serial = record { size = 0; kind = 3; text = [] };
  usb = record { selected = 0; taken = 0; events = [] };
  now = 0;
}

-- The same, with a write to the bus active.
abbrev pub writing : World
writing = record idle { tmc = record idle_tmc { write_busy = true } }

-- The same, where the parser decodes an address.
abbrev pub decoding : World
decoding = record idle { parser = record (idle.parser) { decoding = true } }
