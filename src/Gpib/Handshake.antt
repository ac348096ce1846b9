-- ===== src/Gpib/Handshake.antt =====
-- The three-wire handshakes of SW/TestAndMeasurement/gpib_priv.h.
pub mod Quiet
pub mod Sent
pub mod Expired
pub mod Paced
pub mod Total
pub mod Received
pub mod Apart
pub mod Agree
use usb_gpib.Base.{ℕ, zero, suc, Bool, true, false, not, ◌-◌, ◌&&◌, ◌||◌, ◌==◌, if◌then◌else◌}
use usb_gpib.State.{World, Lines, Sample, Env, BusEvent, command, message}
use usb_gpib.Exec.{M, ret, waiting, pure, modify, skip, when, unless, ◌>>=◌, ◌>>◌}
use usb_gpib.Gpib.Lines.{
  on_lines, observe, set_atn, set_ndac, set_nrfd, set_dav, set_eoi, timer_ticked, gpib_recover,
  read_pin,
}

-- `if (timer_ticked() || quickTimeoutPoll) timedout = ptimeoutfunc();`, where `timedout` was false.
unfoldable pub poll : Bool → M Bool → M Bool
poll quick f = do ticked ← timer_ticked; if ticked || quick then f else pure false

-- What an observer sees when a byte is accepted: the data lines, a command where ATN is low, and EOI with any
-- other byte.
abbrev pub seen : Lines → BusEvent
seen l = if l.atn then command l.dio else message l.dio l.eoi

abbrev pub log_seen : World → World
log_seen w = observe (seen w.gpib.lines) w

-- The lines before the first wait of `gpib_tx_quick`.
abbrev pub present : ℕ → Bool → Lines → Lines
present dat iscommand l = record l {
  atn = iscommand;
  dav = false;
  nrfd = false;
  ndac = false;
  dio = dat;
}

-- `*pEoi`
abbrev pub ends_message : World → ℕ → Bool → Bool
ends_message w c eoi = if w.gpib.terminator_enabled then eoi || c == w.gpib.terminator else eoi

-- The end of `gpib_tx_quick`: the data lines are released.
unfoldable pub tx_end : Bool → M Bool
unfolding gpib_recover
tx_end timedout = do
  modify (on_lines (λ l. record l { dio = 0 }))
  when timedout gpib_recover
  pure timedout

module _ (e : Env) where
  -- do { poll } while (!ready && !timedout), for at most so many rounds; a round starts with
  -- `timedout` false. The result is `timedout`.
  unfoldable pub wait_rounds : ℕ → (Sample → Bool) → Bool → M Bool → M Bool
  unfolding poll timer_ticked
  wait_rounds zero ready quick f w = waiting
  wait_rounds (suc n) ready quick f w =
      (do
        timedout ← poll quick f
        level ← read_pin e ready
        elim (level || timedout) [ true ↦ pure timedout | false ↦ wait_rounds n ready quick f ])
        w

  unfoldable pub wait : (Sample → Bool) → Bool → M Bool → M Bool
  unfolding wait_rounds
  wait = wait_rounds e.polls

  -- From DAV low to DAV high: the acceptors take the byte.
  unfoldable pub offer : M Bool → Bool → M Bool
  unfolding wait
  offer f quick = do
    modify (on_lines (set_dav true))
    timedout ← wait (λ s. s.ndac) quick f
    modify (on_lines (set_dav false))
    when (not timedout) (modify (log_seen))
    pure timedout

  -- `gpib_tx_quick`
  unfoldable pub gpib_tx_quick : ℕ → Bool → M Bool → Bool → M Bool
  unfolding wait offer tx_end
  gpib_tx_quick dat iscommand f quick = do
    modify (on_lines (present dat iscommand))
    t ← wait (λ s. s.nrfd) quick f
    timedout ← unless t (offer f quick)
    tx_end timedout

  -- `gpib_writedat_quick`
  unfoldable pub gpib_writedat_quick : ℕ → Bool → M Bool → Bool → M Bool
  unfolding gpib_tx_quick
  gpib_writedat_quick dat eoi f quick = do
    when eoi (modify (on_lines (set_eoi true)))
    timedout ← gpib_tx_quick dat false f quick
    modify (on_lines (set_eoi false))
    pure timedout

  -- From DAV low to DAV high, as an acceptor: the byte, EOI, and whether the wait timed out.
  unfoldable pub take_byte : M Bool → Bool → M (ℕ × Bool × Bool)
  unfolding wait
  take_byte f quick = do
    modify (on_lines (set_nrfd true))
    c ← read_pin e (λ s. 255 - s.dio)
    eoi ← read_pin e (λ s. not s.eoi)
    modify (on_lines (set_ndac false))
    timedout ← wait (λ s. s.dav) quick f
    pure (c, eoi, timedout)

  -- `gpib_readdat_quick`: the byte, `*pEoi` and `*ptimedout`.
  unfoldable pub gpib_readdat_quick : M Bool → Bool → M (ℕ × Bool × Bool)
  unfolding wait take_byte gpib_recover
  gpib_readdat_quick f quick = do
    modify (on_lines (λ l. record l { atn = false; ndac = true; nrfd = false }))
    t ← wait (λ s. not s.dav) quick f
    (c, eoi, timedout) ← if t then pure (0, false, true) else take_byte f quick
    ends ← (λ w. ret (ends_message w c eoi) w)
    when timedout gpib_recover
    modify (on_lines (set_nrfd true))
    pure (c, ends, timedout)
