-- ===== src/Parser/Message.antt =====
-- `ProcessInternalCommand` of TestAndMeasurement.c: a `!` message fed to the parser, and the bytes
-- of the OUT endpoint.
use usb_gpib.Base.{ℕ, zero, suc, Bool, true, false, ◌||◌, ◌==◌, if◌then◌else◌}
use usb_gpib.State.{World, Env}
use usb_gpib.Exec.{M, pure, modify, skip, ◌>>=◌, ◌>>◌}
use usb_gpib.Endpoint.{endpoint_read}
use usb_gpib.Parser.{parser_add, parser_reset, parser_finalize}

-- `parser_add`, for a byte that is no line end.
unfoldable pub feed_byte : ℕ → M Bool
feed_byte dat = if dat == 13 || dat == 10 then pure false else parser_add dat

module _ (e : Env) where
  -- The loop that feeds the parser until a command was executed; it returns `Length` as it leaves it.
  unfoldable pub feed : ℕ → M ℕ
  unfolding endpoint_read feed_byte
  feed zero = pure 0
  feed (suc n) = do
    dat ← endpoint_read e
    executed ← feed_byte dat
    elim executed [ true ↦ pure n | false ↦ feed n ]

  -- `while (Length--) Endpoint_Read_8();`
  unfoldable pub drain : ℕ → M (Unit {0})
  unfolding endpoint_read
  drain zero = skip
  drain (suc n) = do dat ← endpoint_read e; drain n

  abbrev pub clear_response : World → World
  clear_response w = record w { response = record (w.response) { len = 0; rpos = 0 } }

  -- `ProcessInternalCommand`
  unfoldable pub process_internal_command : ℕ → M (Unit {0})
  unfolding feed drain
  process_internal_command len = do
    modify clear_response
    parser_reset
    left ← feed len
    last ← parser_add b'_'
    parser_finalize
    drain left
