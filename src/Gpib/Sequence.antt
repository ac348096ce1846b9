-- ===== src/Gpib/Sequence.antt =====
-- How a sequence of bus commands ends: all of it was sent, or a part of it and then the recovery.
use usb_gpib.Base.{
  ℕ, zero, suc, Bool, true, false, ◌≡◌, refl, ◌∙◌, List, [], ◌∷◌, ◌++◌, append_assoc, append-nil,
  subst, ◌⊎◌, inl, inr,
}
use usb_gpib.State.{World, Gpib, Usb, BusEvent, remote, interface_clear}
use usb_gpib.Exec.{M, bind, unless, Ensures, Ensures-bind}
use usb_gpib.Gpib.Timeouts.{IsWatch}

-- What `gpib_recover` shows on the bus, some number of times.
abbrev pub recoveries : ℕ → List BusEvent
recoveries zero = []
recoveries (suc n) = remote true ∷ interface_clear ∷ recoveries n

recoveries_more : (n : ℕ) → recoveries n ++ recoveries 1 ≡ recoveries (suc n)
recoveries_more zero = refl
recoveries_more (suc n) = rw (recoveries_more n)

-- Some of the events were seen, at least one is missing, and the interface was then recovered.
pub record IsCut (bs : List BusEvent) (w w' : World) : Type 0 where
  pub before : List BusEvent
  pub missing : BusEvent
  pub rest : List BusEvent
  pub times : ℕ
  pub split : bs ≡ before ++ (missing ∷ rest)
  pub log_eq : w'.gpib.log ≡ w.gpib.log ++ (before ++ recoveries (suc times))

IsCut-frame :
    (bs : List BusEvent) (w u : World) (g : Gpib)
    → g.log ≡ u.gpib.log
    → IsCut bs w u
    → IsCut bs w (record u { gpib = g })
IsCut-frame bs w u g same c = record {
  before = c.before;
  missing = c.missing;
  rest = c.rest;
  times = c.times;
  split = c.split;
  log_eq = same ∙ c.log_eq;
}

-- All the events were seen, or a part of them and then the recovery.
abbrev pub Shows : List BusEvent → World → World → Type 0
Shows bs w u = (u.gpib.log ≡ w.gpib.log ++ bs) ⊎ IsCut bs w u

-- Only the log matters.
pub Shows-same :
    (bs : List BusEvent) (w w' u u' : World)
    → w.gpib.log ≡ w'.gpib.log
    → u'.gpib.log ≡ u.gpib.log
    → Shows bs w u
    → Shows bs w' u'
Shows-same bs w w' u u' from to (inl all) = inl (rw (← from) (to ∙ all))
Shows-same bs w w' u u' from to (inr c) = inr (record {
  before = c.before;
  missing = c.missing;
  rest = c.rest;
  times = c.times;
  split = c.split;
  log_eq = rw (← from) (to ∙ c.log_eq);
})

module _ {f : M Bool} (watch : IsWatch f) where
  open watch use {Expired}

  -- `t` is the returned `timedout`.
  pub record Ends (bs : List BusEvent) (w : World) (t : Bool) (w' : World) : Type 0 where
    pub done : t ≡ false → w'.gpib.log ≡ w.gpib.log ++ bs
    pub cut : t ≡ true → IsCut bs w w' × Expired w'

  -- Nothing was sent so far.
  pub start : (w u : World) → u.gpib.log ≡ w.gpib.log → Ends [] w false u
  start w u same = record { done = λ _. rw (append-nil, same); cut = λ h. cc }

  -- A change of the state that does not show on the bus.
  pub Ends-frame :
      (bs : List BusEvent) (w u : World) (t : Bool) (g : Gpib)
      → g.log ≡ u.gpib.log
      → Ends bs w t u
      → Ends bs w t (record u { gpib = g })
  Ends-frame bs w u t g same h = record {
    done = λ d. same ∙ h.done d;
    cut = λ d. (IsCut-frame bs w u g same (h.cut d).0, watch.frame u g u.now (h.cut d).1);
  }

  -- A change on the USB side.
  pub Ends-apart :
      (bs : List BusEvent) (w u : World) (t : Bool) (b : Usb)
      → Ends bs w t u
      → Ends bs w t (record u { usb = b })
  Ends-apart bs w u t b h = record {
    done = h.done;
    cut = λ d. (IsCut-apart (h.cut d).0, watch.usb_frame u b (h.cut d).1);
  }
    where
      IsCut-apart : IsCut bs w u → IsCut bs w (record u { usb = b })
      IsCut-apart c = record {
        before = c.before;
        missing = c.missing;
        rest = c.rest;
        times = c.times;
        split = c.split;
        log_eq = c.log_eq;
      }

  -- A longer sequence was cut as well.
  IsCut-longer : (bs cs : List BusEvent) (u w : World) → IsCut bs u w → IsCut (bs ++ cs) u w
  IsCut-longer bs cs u w c = record {
    before = c.before;
    missing = c.missing;
    rest = c.rest ++ cs;
    times = c.times;
    split = rw (c.split, append_assoc);
    log_eq = c.log_eq;
  }

  -- Nothing of a longer sequence was sent either.
  pub Ends-longer :
      (bs cs : List BusEvent) (w u : World) → Ends bs w true u → Ends (bs ++ cs) w true u
  Ends-longer bs cs w u h = record {
    done = λ d. cc;
    cut = λ d. (IsCut-longer bs cs w u (h.cut refl).0, (h.cut refl).1);
  }

  -- A sequence that was all sent, and a next one that was cut.
  IsCut-append :
      (bs cs : List BusEvent) (u v w : World)
      → v.gpib.log ≡ u.gpib.log ++ bs
      → IsCut cs v w
      → IsCut (bs ++ cs) u w
  IsCut-append bs cs u v w e c = record {
    before = bs ++ c.before;
    missing = c.missing;
    rest = c.rest;
    times = c.times;
    split = rw (c.split, append_assoc);
    log_eq = c.log_eq ∙ rw (e, append_assoc (u.gpib.log), append_assoc bs) refl;
  }

  pub Ends-append :
      (bs cs : List BusEvent) (u v w : World) (t : Bool)
      → v.gpib.log ≡ u.gpib.log ++ bs
      → Ends cs v t w
      → Ends (bs ++ cs) u t w
  Ends-append bs cs u v w t e h = record {
    done = λ d. h.done d ∙ rw (e, append_assoc) refl;
    cut = λ d. (IsCut-append bs cs u v w e (h.cut d).0, (h.cut d).1);
  }

  -- One more recovery after a cut, of a sequence that may be longer.
  pub Ends-again :
      (bs cs : List BusEvent) (u v w : World) (t : Bool)
      → Ends bs u true v
      → w.gpib.log ≡ v.gpib.log ++ recoveries 1
      → t ≡ true
      → Expired w
      → Ends (bs ++ cs) u t w
  Ends-again bs cs u v w t h log timed x =
      let c = (h.cut refl).0 in
      record {
        done = λ d. cc;
        cut = λ _. (
          record {
            before = c.before;
            missing = c.missing;
            rest = c.rest ++ cs;
            times = suc c.times;
            split = rw (c.split, append_assoc);
            log_eq =
                log ∙ rw (c.log_eq, append_assoc, append_assoc, recoveries_more (suc c.times)) refl;
          },
          x,
        );
      }

  pub Ends-once_more :
      (bs : List BusEvent) (u v w : World)
      → Ends bs u true v
      → w.gpib.log ≡ v.gpib.log ++ recoveries 1
      → Expired w
      → Ends bs u true w
  Ends-once_more bs u v w h log x =
      subst (λ cs. Ends cs u true w) (append-nil bs) (Ends-again bs [] u v w true h log refl x)

  -- `if (!timedout) timedout = m;`, and what follows it.
  pub next :
      {B : Type 0} (Q : B → World → Type 0) (bs cs : List BusEvent) (w : World) (t : Bool)
      (u : World) (m : M Bool) (k : Bool → M B)
      → Ends bs w t u
      → ((v : World) → Ensures (Ends cs v) (m v))
      → ((t' : Bool) (v : World) → Ends (bs ++ cs) w t' v → Ensures Q (k t' v))
      → Ensures Q (bind (unless t m u) k)
  next Q bs cs w true u m k h step rest = rest true u (record {
    done = λ e. cc;
    cut = λ e. (IsCut-longer bs cs w u (h.cut refl).0, (h.cut refl).1);
  })
  next Q bs cs w false u m k h step rest =
      Ensures-bind (Ends cs u) Q (m u) k (step u)
        λ t' v h'. rest t' v (Ends-append bs cs w u v t' (h.done refl) h')

  pub Ends-Shows : (bs : List BusEvent) (w u : World) (t : Bool) → Ends bs w t u → Shows bs w u
  Ends-Shows bs w u true h = inr (h.cut refl).0
  Ends-Shows bs w u false h = inl (h.done refl)
