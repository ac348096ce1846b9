-- ===== src/Gpib/Timeouts.antt =====
-- The two countdowns that serve as `ptimeoutfunc`, and what a run asks of a timeout function.
use usb_gpib.Base.{ℕ, Bool, true, false, ◌≡◌, refl, ◌+◌, ◌-◌, ◌≤◌, ◌<◌, ◌==◌, arith, ==_iff}
use usb_gpib.State.{World, Timeouts, Gpib, Usb}
use usb_gpib.Exec.{M, ret, modify, Ensures, Returns}

-- `timeout_start` of TestAndMeasurement.c and of gpib.c
unfoldable pub timeout_start : ℕ → M (Unit {0})
timeout_start t = modify λ w. record w { timeouts = record (w.timeouts) { main = t } }

unfoldable pub search_timeout_start : ℕ → M (Unit {0})
search_timeout_start t = modify λ w. record w { timeouts = record (w.timeouts) { search = t } }

-- `is_timedout` of TestAndMeasurement.c and of gpib.c
unfoldable pub is_timedout : M Bool
is_timedout w =
    ret (w.timeouts.main == 0)
      (record w { timeouts = record (w.timeouts) { main = w.timeouts.main - 1 } })

unfoldable pub search_is_timedout : M Bool
search_is_timedout w =
    ret (w.timeouts.search == 0)
      (record w { timeouts = record (w.timeouts) { search = w.timeouts.search - 1 } })

-- The lines, the log and the settings are the same.
pub record SameBus (w w' : World) : Type 0 where
  pub lines : w'.gpib.lines ≡ w.gpib.lines
  pub log : w'.gpib.log ≡ w.gpib.log
  pub transaction : w'.gpib.transaction_active ≡ w.gpib.transaction_active
  pub terminator : w'.gpib.terminator ≡ w.gpib.terminator
  pub enabled : w'.gpib.terminator_enabled ≡ w.gpib.terminator_enabled

pub SameBus-refl : (w : World) → SameBus w w
SameBus-refl w = ground arith

pub SameBus-trans : {u v w : World} → SameBus u v → SameBus v w → SameBus u w
SameBus-trans a b = ground arith

-- A timeout function that leaves the bus alone, and that keeps saying `true` once it has.
pub record IsWatch (f : M Bool) : Type 1 where
  pub Expired : World → Type 0
  pub quiet : (w : World) → Ensures (λ t w'. SameBus w w' × (t ≡ true → Expired w')) (f w)
  pub sticky : (w : World) → Expired w → Ensures (λ t w'. (t ≡ true) × Expired w') (f w)
  pub frame : (w : World) (g : Gpib) (n : ℕ) → Expired w → Expired (record w { gpib = g; now = n })
  pub usb_frame : (w : World) (b : Usb) → Expired w → Expired (record w { usb = b })

-- A countdown: it takes one from a budget at each call, and says `true` when there is none left.
pub record IsCountdown (f : M Bool) : Type 0 where
  pub budget : Timeouts → ℕ
  pub spend : Timeouts → Timeouts
  pub budget-spend : (t : Timeouts) → budget (spend t) ≡ budget t - 1
  pub call :
      (w : World) → f w ≡ ret (budget w.timeouts == 0) (record w { timeouts = spend w.timeouts })

-- A timeout function that says `true` before long: at each call it does, or a bound gets smaller, by more
-- than `pace`; and the bus and the time do not make the bound larger.
pub record IsFinite (f : M Bool) : Type 0 where
  pub left : World → ℕ
  pub pace : ℕ
  pub call :
      (w : World) → Returns (λ t u. left u ≤ left w × (t ≡ false → left u + pace < left w)) (f w)
  pub frame :
      (w : World) (g : Gpib) (n : ℕ) → w.now ≤ n → left (record w { gpib = g; now = n }) ≤ left w

abbrev pub main_countdown : IsCountdown is_timedout
unfolding is_timedout
main_countdown = record {
  budget = λ t. t.main;
  spend = λ t. record t { main = t.main - 1 };
  budget-spend = λ t. refl;
  call = λ w. refl;
}

abbrev pub search_countdown : IsCountdown search_is_timedout
unfolding search_is_timedout
search_countdown = record {
  budget = λ t. t.search;
  spend = λ t. record t { search = t.search - 1 };
  budget-spend = λ t. refl;
  call = λ w. refl;
}

module _ {f : M Bool} (c : IsCountdown f) where
  -- It is not at zero, and gets shorter.
  pub fewer : (a b : ℕ) → b ≡ a - 1 → (a == 0) ≡ false → b + 0 < a
  fewer a b = ground arith

  -- Every countdown is finite.
  abbrev pub countdown-IsFinite : IsFinite f
  countdown-IsFinite = record {
    left = λ w. c.budget w.timeouts;
    pace = 0;
    call = λ w. rw (c.call w) (
      omega (arith, c.budget-spend w.timeouts),
      fewer (c.budget w.timeouts) (c.budget (c.spend w.timeouts)) (c.budget-spend w.timeouts),
    );
    frame = λ w g n later. omega arith;
  }

  -- Every countdown is a watch.
  pub countdown-IsWatch : IsWatch f
  countdown-IsWatch = record {
    Expired = λ w. c.budget w.timeouts ≡ 0;
    quiet = λ w. rw (c.call w) (
      ground arith,
      λ t. omega (arith, c.budget-spend w.timeouts, (==_iff (c.budget w.timeouts) 0).0 t),
    );
    sticky = λ w h.
        rw (c.call w)
          ((==_iff (c.budget w.timeouts) 0).1 h, omega (arith, c.budget-spend w.timeouts));
    frame = λ w g n h. h;
    usb_frame = λ w b h. h;
  }
