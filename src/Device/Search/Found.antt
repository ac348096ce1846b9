-- ===== src/Device/Search/Found.antt =====
-- The search returns, with an address that fits the bus.
use usb_gpib.Base.{
  ℕ, zero, suc, Bool, true, false, not, ◌≡◌, ◌⊎◌, inl, inr, refl, ◌+◌, ◌≤◌, ◌<◌, ◌||◌, ◌==◌, ltb,
  leb, bit_and, if◌then◌else◌, Bool-cases, passes_below, passes_below_sound, arith,
}
use usb_gpib.State.{World, Env}
use usb_gpib.Exec.{M, pure, Returning, Returns, Returns-bind, Returns-weaken}
use usb_gpib.Gpib.Lines.{read_pin, set_transaction}
use usb_gpib.Gpib.Timeouts.{
  search_countdown, countdown-IsFinite, search_timeout_start, search_is_timedout,
}
use usb_gpib.Gpib.Commands.{gpib_tx, gpib_cmd_lag}
use usb_gpib.Gpib.Commands.Total.{command-Total, address-Total}
use usb_gpib.Device.Search.{
  is_answered, probe, search_rounds, search_unlisten, try_primary, gpib_search, find_gpib_device,
  not_found,
}

-- It is an address below 63, or the value for none.
abbrev pub IsResult : ℕ → Type 0
IsResult a = (a ≡ not_found) ⊎ (a < 63)

ltb_below : (a b : ℕ) → ltb a b ≡ true → a < b
ltb_below a b h = ground arith

primary_lt : (a : ℕ) → a ≤ 63 → bit_and a 0x1f < 63
unfolding passes_below
primary_lt a le =
    ltb_below _ _ (passes_below_sound 64 (λ x. ltb (bit_and x 0x1f) 63) a refl (omega (arith, le)))

-- The last address that is not skipped is 62.
not_skipped : (a : ℕ) → a < 63 → (bit_and (a + 1) 0x1f == 31) ≡ false → a + 1 < 63
unfolding passes_below
not_skipped a lt h = ltb_below _ _ (
    ground (
      arith,
      passes_below_sound 63 (λ x. (bit_and (x + 1) 0x1f == 31) || ltb (x + 1) 63) a refl lt,
    ))

-- What `findGpibdevice` leaves.
abbrev pub IsChosen : Bool → World → Type 0
IsChosen found u = (u.gpib_addr < 63) × (found ≡ false → u.gpib_addr ≡ 1)

module _ (e : Env) (long : 500 < e.polls) where
  is_answered-Returns : Returning (is_answered e)
  unfolding is_answered read_pin
  is_answered-Returns w = ground arith

  probe-Returns : (addr : ℕ) → Returning (probe e addr)
  unfolding probe search_timeout_start gpib_cmd_lag search_is_timedout
  probe-Returns addr w =
      Returns-bind _ (λ a u. Unit {0}) (gpib_cmd_lag e addr search_is_timedout _) _
        (address-Total e (countdown-IsFinite search_countdown) 0x20 addr _ (omega (arith, long)))
        λ t u h. is_answered-Returns _

  unlisten-Returns : Returning (search_unlisten e)
  unfolding search_unlisten search_timeout_start search_is_timedout
  unlisten-Returns w =
      Returns-weaken _ (λ a u. Unit {0}) (gpib_tx e 0x3f true search_is_timedout _)
        (command-Total e (countdown-IsFinite search_countdown) 0x3f _ (omega (arith, long)))
        λ t u h. tt

  -- The address that the loop stopped at, and the one it found.
  abbrev Searched : ℕ × ℕ → World → Type 0
  Searched r u = (r.0 ≤ 63) × IsResult r.1

  end_round :
      (n addr : ℕ) (hit : Bool) (u : World)
      → addr < 63
      → (hit ≡ true → addr + 1 < 63)
      → ((v : World) → Returns Searched (search_rounds e n (addr + 1) v))
      → Returns Searched (
          elim (hit || not (ltb (addr + 1) 63)) as (λ _. M (ℕ × ℕ)) [
            | true ↦ pure (addr + 1, if hit then addr + 1 else not_found)
            | false ↦ search_rounds e n (addr + 1)
          ]
            u)
  end_round n addr true u lt fits rest = (omega arith, inr (fits refl))
  end_round n addr false u lt fits rest = elim (Bool-cases (ltb (addr + 1) 63)) [
    | inl more ↦ rw more (rest u)
    | inr done ↦ rw done (omega arith, inl refl)
  ]

  -- A skipped address is no hit.
  try_next :
      (addr : ℕ) (w : World)
      → addr < 63
      → Returns
          (λ hit u. hit ≡ true → addr + 1 < 63)
          ((if bit_and (addr + 1) 0x1f == 31 then pure false else probe e (addr + 1)) w)
  try_next addr w lt = elim (Bool-cases (bit_and (addr + 1) 0x1f == 31)) [
    | inl skipped ↦ rw skipped (λ h. cc)
    | inr sent ↦ rw sent (
        Returns-weaken (λ a u. Unit {0}) _ (probe e (addr + 1) w) (probe-Returns (addr + 1) w)
          λ a u h h'. not_skipped addr lt sent)
  ]

  rounds-Returns :
      (n addr : ℕ) (w : World) → addr + n ≡ 63 → Returns Searched (search_rounds e n addr w)
  unfolding search_rounds
  rounds-Returns zero addr w sum = (omega (arith, sum), inl refl)
  rounds-Returns (suc n) addr w sum =
      Returns-bind (λ hit u. hit ≡ true → addr + 1 < 63) Searched _ _
        (try_next addr w (omega (arith, sum)))
        λ hit u fits.
          end_round n addr hit u (omega (arith, sum)) fits
            (λ v. rounds-Returns n (addr + 1) v (omega (arith, sum)))

  primary-Returns :
      (addr found : ℕ) (w : World)
      → addr ≤ 63
      → IsResult found
      → Returns (λ r u. IsResult r) (try_primary e addr found w)
  unfolding try_primary
  primary-Returns addr found w le ok = elim (Bool-cases (leb 32 addr)) [
    | inl far ↦ rw far (
        Returns-bind (λ a u. Unit {0}) (λ r u. IsResult r) (probe e (bit_and addr 0x1f) w) _
          (probe-Returns (bit_and addr 0x1f) w)
          λ hit u h.
            Returns-bind (λ a u. Unit {0}) (λ r u. IsResult r) (search_unlisten e u) _
              (unlisten-Returns u) λ t v h'. choose hit)
    | inr near ↦ rw near ok
  ]
    where
      choose : (hit : Bool) → IsResult (if hit then bit_and addr 0x1f else found)
      choose true = inr (primary_lt addr le)
      choose false = ok

  -- With waits that are followed for more than 500 polls, the search returns, whatever the pins do, and
  -- its result is 255 or an address below 63.
  pub search-IsResult : (w : World) → Returns (λ r u. IsResult r) (gpib_search e w)
  unfolding gpib_search
  search-IsResult w =
      Returns-bind (λ a u. Unit {0}) (λ r u. IsResult r)
        (search_unlisten e (set_transaction true w)) _ (unlisten-Returns (set_transaction true w))
        λ t1 u1 h1.
          Returns-bind Searched (λ r u. IsResult r) (search_rounds e 63 0 u1) _
            (rounds-Returns 63 0 u1 refl)
            λ r u2 h2.
              Returns-bind (λ a u. Unit {0}) (λ r u. IsResult r) (search_unlisten e u2) _
                (unlisten-Returns u2)
                λ t2 u3 h3.
                  Returns-bind (λ r u. IsResult r) (λ r u. IsResult r) (try_primary e r.0 r.1 u3) _
                    (primary-Returns r.0 r.1 u3 h2.0 h2.1) λ a u h. h

  choose-IsChosen :
      (a : ℕ) (u : World)
      → IsResult a
      → IsChosen (ltb a not_found) (record u { gpib_addr = if leb not_found a then 1 else a })
  choose-IsChosen a u h = ground arith

  -- With waits that are followed for more than 500 polls, `findGpibdevice` returns, the address it
  -- selects is below 63, and it is 1 where it reports that no device was found.
  pub find_gpib_device-IsChosen : (w : World) → Returns IsChosen (find_gpib_device e w)
  unfolding find_gpib_device
  find_gpib_device-IsChosen w =
      Returns-bind (λ r u. IsResult r) IsChosen (gpib_search e w) _ (search-IsResult w)
        λ a u h. choose-IsChosen a u h
