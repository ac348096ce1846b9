-- ===== src/Device/Search.antt =====
-- `gpib_search` of gpib.c and `findGpibdevice` of TestAndMeasurement.c.
pub mod Found
use usb_gpib.Base.{
  ℕ, zero, suc, Bool, true, false, not, ◌+◌, ◌||◌, ◌==◌, ltb, leb, bit_and, if◌then◌else◌,
}
use usb_gpib.State.{World, Env}
use usb_gpib.Exec.{M, pure, modify, ◌>>=◌, ◌>>◌}
use usb_gpib.Gpib.Lines.{on_lines, set_atn, set_transaction, read_pin}
use usb_gpib.Gpib.Timeouts.{search_timeout_start, search_is_timedout}
use usb_gpib.Gpib.Commands.{gpib_tx, gpib_cmd_lag}

-- No address was found.
abbrev pub not_found : ℕ
not_found = 255

module _ (e : Env) where
  -- `(NDAC_STATE == 0) && (ATN_STATE != 0)`
  unfoldable pub is_answered : M Bool
  is_answered = do
    ndac ← read_pin e (λ s. s.ndac)
    if ndac then pure false else read_pin e (λ s. s.atn)

  -- The address is sent, and a device that has it holds NDAC.
  unfoldable pub probe : ℕ → M Bool
  unfolding search_timeout_start is_answered
  probe addr = do
    search_timeout_start 500
    t ← gpib_cmd_lag e addr search_is_timedout
    modify (on_lines (set_atn false))
    is_answered

  -- The loop of `gpib_search` from the address after `addr`, for at most so many rounds; it returns
  -- `addr` and `foundaddr`.
  unfoldable pub search_rounds : ℕ → ℕ → M (ℕ × ℕ)
  unfolding probe
  search_rounds zero addr = pure (addr, not_found)
  search_rounds (suc n) addr = do
    hit ← (if bit_and (addr + 1) 0x1f == 31 then pure false else probe (addr + 1))
    elim (hit || not (ltb (addr + 1) 63)) [
      | true ↦ pure (addr + 1, if hit then addr + 1 else not_found)
      | false ↦ search_rounds n (addr + 1)
    ]

  -- `timeout_start(500); gpib_tx(0x3F, true, is_timedout);`
  unfoldable pub search_unlisten : M Bool
  unfolding search_timeout_start
  search_unlisten = do search_timeout_start 500; gpib_tx e 0x3f true search_is_timedout

  -- The device may answer without its secondary address.
  unfoldable pub try_primary : ℕ → ℕ → M ℕ
  unfolding probe search_unlisten
  try_primary addr found =
      if leb 32 addr
      then (do
        hit ← probe (bit_and addr 0x1f)
        t ← search_unlisten
        pure (if hit then bit_and addr 0x1f else found))
      else pure found

  -- `gpib_search`
  unfoldable pub gpib_search : M ℕ
  unfolding search_unlisten search_rounds try_primary
  gpib_search = do
    modify (set_transaction true)
    t1 ← search_unlisten
    (addr, found) ← search_rounds 63 0
    t2 ← search_unlisten
    result ← try_primary addr found
    modify (set_transaction false)
    pure result

  -- `findGpibdevice`
  unfoldable pub find_gpib_device : M Bool
  unfolding gpib_search
  find_gpib_device = do
    addr ← gpib_search
    modify (λ w. record w { gpib_addr = if leb not_found addr then 1 else addr })
    pure (ltb addr not_found)
