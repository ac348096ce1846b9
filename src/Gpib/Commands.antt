-- ===== src/Gpib/Commands.antt =====
-- The commands and the addressing sequences of SW/TestAndMeasurement/gpib.c. The delays between the
-- steps change no state and are left out.
pub mod Address
pub mod Poll
pub mod Roles
pub mod Total
pub mod Apart
pub mod Agree
use usb_gpib.Base.{
  ℕ, zero, suc, Bool, true, false, not, ◌+◌, ◌-◌, ◌/◌, ◌%◌, ◌&&◌, ◌||◌, ◌==◌, ltb, leb, bit_and,
  bit_or, if◌then◌else◌,
}
use usb_gpib.State.{World, Timeouts, Env}
use usb_gpib.Exec.{M, ret, pure, modify, gets, when, unless, ◌>>=◌, ◌>>◌}
use usb_gpib.Gpib.Lines.{on_lines, set_atn, set_ndac, set_transaction, gpib_recover, read_pin}
use usb_gpib.Gpib.Handshake.{gpib_tx_quick, gpib_readdat_quick, gpib_writedat_quick}

-- `if (timedout) gpib_recover(); return timedout;`
unfoldable pub recover_if : Bool → M Bool
unfolding gpib_recover
recover_if timedout = do when timedout gpib_recover; pure timedout

module _ (e : Env) where
  -- `gpib_tx`
  unfoldable pub gpib_tx : ℕ → Bool → M Bool → M Bool
  gpib_tx dat iscommand f = gpib_tx_quick e dat iscommand f true

  -- The address and, where the upper three bits are not zero, the secondary address. The result of
  -- the first command is overwritten.
  unfoldable pub gpib_cmd_address : ℕ → ℕ → M Bool → M Bool
  gpib_cmd_address group addr f = do
    result ← gpib_tx (bit_or (bit_and addr 0x1f) group) true f
    if bit_and addr 0xe0 == 0 then pure result else gpib_tx (bit_or 0x60 (addr / 32 - 1)) true f

  -- `gpib_cmd_LAG`
  unfoldable pub gpib_cmd_lag : ℕ → M Bool → M Bool
  gpib_cmd_lag = gpib_cmd_address 0x20

  -- `gpib_cmd_TAG`
  unfoldable pub gpib_cmd_tag : ℕ → M Bool → M Bool
  gpib_cmd_tag = gpib_cmd_address 0x40

  unfoldable pub gpib_cmd_unl : M Bool → M Bool
  gpib_cmd_unl = gpib_tx 0x3f true

  unfoldable pub gpib_cmd_unt : M Bool → M Bool
  gpib_cmd_unt = gpib_tx 0x5f true

  unfoldable pub gpib_cmd_llo : M Bool → M Bool
  gpib_cmd_llo = gpib_tx 0x11 true

  unfoldable pub gpib_cmd_gtl : M Bool → M Bool
  gpib_cmd_gtl = gpib_tx 0x01 true

  unfoldable pub gpib_cmd_spe : M Bool → M Bool
  gpib_cmd_spe = gpib_tx 0x18 true

  unfoldable pub gpib_cmd_spd : M Bool → M Bool
  gpib_cmd_spd = gpib_tx 0x19 true

  unfoldable pub gpib_cmd_get : M Bool → M Bool
  gpib_cmd_get = gpib_tx 0x08 true

  unfoldable pub gpib_cmd_sdc : M Bool → M Bool
  gpib_cmd_sdc = gpib_tx 0x04 true

  -- `gpib_readdat`
  unfoldable pub gpib_readdat : M Bool → M (ℕ × Bool × Bool)
  gpib_readdat f = gpib_readdat_quick e f true

  -- `gpib_writedat`
  unfoldable pub gpib_writedat : ℕ → Bool → M Bool → M Bool
  gpib_writedat dat eoi f = gpib_writedat_quick e dat eoi f true

  -- `gpib_readStatusByte`
  unfoldable pub gpib_read_status_byte : ℕ → M Bool → M ℕ
  gpib_read_status_byte addr f = do
    modify (set_transaction true)
    t1 ← gpib_cmd_lag 0 f
    t2 ← unless t1 (gpib_cmd_spe f)
    t3 ← unless t2 (gpib_cmd_tag addr f)
    (status, eoi, t4) ← if t3 then pure (0, false, true) else gpib_readdat f
    t5 ← unless t4 (gpib_cmd_spd f)
    t6 ← unless t5 (gpib_cmd_unt f)
    t7 ← recover_if t6
    modify (set_transaction false)
    pure status

  -- `gpib_localLockout`
  unfoldable pub gpib_local_lockout : M Bool → M Bool
  gpib_local_lockout f = do t ← gpib_cmd_llo f; recover_if t

  -- `gpib_gotoLocal`
  unfoldable pub gpib_goto_local : ℕ → M Bool → M Bool
  gpib_goto_local addr f = do
    t1 ← gpib_cmd_lag addr f
    t2 ← unless t1 (gpib_cmd_gtl f)
    t3 ← unless t2 (gpib_cmd_unl f)
    recover_if t3

  -- `gpib_trigger`
  unfoldable pub gpib_trigger : ℕ → M Bool → M Bool
  gpib_trigger addr f = do
    t1 ← gpib_cmd_lag addr f
    t2 ← unless t1 (gpib_cmd_get f)
    t3 ← unless t2 (gpib_cmd_unl f)
    recover_if t3

  -- `gpib_sdc`
  unfoldable pub gpib_sdc : ℕ → M Bool → M Bool
  gpib_sdc addr f = do
    modify (set_transaction true)
    t1 ← gpib_cmd_lag addr f
    t2 ← unless t1 (gpib_cmd_sdc f)
    t3 ← unless t2 (gpib_cmd_unl f)
    t ← recover_if t3
    modify (set_transaction false)
    pure t

  -- `gpib_untalk_unlisten`
  unfoldable pub gpib_untalk_unlisten : M Bool → M Bool
  gpib_untalk_unlisten f = do
    t1 ← gpib_cmd_unl f
    t2 ← unless t1 (gpib_cmd_unt f)
    t ← recover_if t2
    modify (set_transaction false)
    pure t

  -- `gpib_make_talker`
  unfoldable pub gpib_make_talker : ℕ → M Bool → M Bool
  gpib_make_talker addr f = do
    modify (set_transaction true)
    t1 ← gpib_cmd_unl f
    t2 ← unless t1 (gpib_cmd_lag 0 f)
    t3 ← unless t2 (gpib_cmd_tag addr f)
    modify (on_lines (set_ndac true))
    recover_if t3

  -- `gpib_make_listener`
  unfoldable pub gpib_make_listener : ℕ → M Bool → M Bool
  gpib_make_listener addr f = do
    modify (set_transaction true)
    t1 ← gpib_cmd_unt f
    t2 ← unless t1 (gpib_cmd_tag 0 f)
    t3 ← unless t2 (gpib_cmd_unl f)
    t4 ← unless t3 (gpib_cmd_lag addr f)
    recover_if t4

  -- `gpib_is_connected`
  unfoldable pub gpib_is_connected : M Bool
  gpib_is_connected w =
      if w.gpib.lines.atn && w.gpib.transaction_active
      then ret true w
      else read_pin e (λ s. s.atn) (on_lines (set_atn false) w)
