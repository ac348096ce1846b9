-- ===== src/Transfer/Header.antt =====
-- The header of a USBTMC message: `ReadTMCHeader` and `WriteTMCHeader`.
use usb_gpib.Base.{ℕ, List, [], ◌∷◌, Option, some, none, ◌+◌, ◌-◌, ◌*◌, ◌/◌, ◌%◌, if◌then◌else◌}
use usb_gpib.State.{Env}
use usb_gpib.Exec.{M, pure, modify, gets, ◌>>=◌, ◌>>◌}
use usb_gpib.Endpoint.{on_tmc, select, in_ep, out_ep, endpoint_read, is_out_received}
use usb_gpib.Transfer.Stream.{write_stream_plain}

-- TMC_MessageHeader_t, with the bytes of MessageIDSpecific.
pub record Header : Type 0 where
  pub message_id : ℕ
  pub tag : ℕ
  pub inverse_tag : ℕ
  pub reserved : ℕ
  pub transfer_size : ℕ
  pub last_message : ℕ
  pub term_char : ℕ
  pub reserved0 : ℕ
  pub reserved1 : ℕ

-- The twelve bytes of a header; `transfer_size` is little endian.
abbrev pub header_bytes : Header → List ℕ
header_bytes h =
    h.message_id
    ∷ h.tag
    ∷ h.inverse_tag
    ∷ h.reserved
    ∷ h.transfer_size % 256
    ∷ h.transfer_size / 256 % 256
    ∷ h.transfer_size / 65536 % 256
    ∷ h.transfer_size / 16777216 % 256
    ∷ h.last_message
    ∷ h.term_char
    ∷ h.reserved0
    ∷ h.reserved1
    ∷ []

abbrev pub header_size : ℕ
header_size = 12

module _ (e : Env) where
  -- The twelve bytes that are read, as a header.
  unfoldable pub read_header : M Header
  unfolding endpoint_read
  read_header = do
    message_id ← endpoint_read e
    tag ← endpoint_read e
    inverse_tag ← endpoint_read e
    reserved ← endpoint_read e
    s0 ← endpoint_read e
    s1 ← endpoint_read e
    s2 ← endpoint_read e
    s3 ← endpoint_read e
    last_message ← endpoint_read e
    term_char ← endpoint_read e
    reserved0 ← endpoint_read e
    reserved1 ← endpoint_read e
    pure (record {
      message_id = message_id;
      tag = tag;
      inverse_tag = inverse_tag;
      reserved = reserved;
      transfer_size = s0 + 256 * s1 + 65536 * s2 + 16777216 * s3;
      last_message = last_message;
      term_char = term_char;
      reserved0 = reserved0;
      reserved1 = reserved1;
    })

  -- `ReadTMCHeader`: the header, where it returns true.
  unfoldable pub read_tmc_header : M (Option Header)
  unfolding read_header
  read_tmc_header = do
    modify (select out_ep)
    received ← is_out_received e
    if received
        then (do
          h ← read_header
          modify (on_tmc (λ t. record t { transfer_tag = h.tag }))
          aborted ← gets (λ w. w.tmc.out_reset)
          pure (if aborted then none else some h))
        else pure none

  -- `WriteTMCHeader`: its result is not used, and the header keeps the other fields that were read.
  unfoldable pub write_tmc_header : Header → M ℕ
  unfolding write_stream_plain
  write_tmc_header h = do
    tag ← gets (λ w. w.tmc.transfer_tag)
    modify (select in_ep)
    write_stream_plain e (header_bytes (record h { tag = tag; inverse_tag = 255 - tag }))
