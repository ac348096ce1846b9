-- ===== src/Bootloader/Main/Leave.antt =====
-- When the main loop of the boot loader is left.
use usb_gpib.Base.{
  ℕ, zero, suc, Bool, true, false, List, [], ◌∷◌, ◌++◌, Option, none, some, ◌≡◌, refl, sym, ap, ◌∙◌,
  ◌⊎◌, inl, inr, ◌+◌, ◌-◌, ◌%◌, ◌≤◌, ◌<◌, bit_and, ltb, Bool-cases, arith,
}
use usb_gpib.Bootloader.Flash.{Spm}
use usb_gpib.Bootloader.Scsi.{Command, dispatch_scsi, decode_scsi_command}
use usb_gpib.Bootloader.Main.{
  Loader, Leds, magic_boot_key, set_leds, command_received, ms_usb_task, main_loop, leave,
  leave_if_over, boot_main,
}

-- So many rounds without a command.
abbrev pub idle : ℕ → List (Option Command)
idle zero = []
idle (suc n) = none ∷ idle n

-- The rounds up to the end of the loop: whatever came first, a command, and 255 rounds without one.
abbrev pub EndsIn : List (Option Command) → List (Option Command) → Type 0
EndsIn es rest =
    (before : List (Option Command)) × (c : Command) × (es
      ≡ before ++ (some c ∷ (idle 255 ++ rest)))

later :
    (e : Option Command) (es rest : List (Option Command)) → EndsIn es rest → EndsIn (e ∷ es) rest
later e es rest h = (e ∷ h.0, h.1, ap (λ t. e ∷ t) h.2)

one_more :
    (t : ℕ) (rest : List (Option Command))
    → t < 255
    → none ∷ (idle (255 - (t + 1) % 256) ++ rest) ≡ idle (255 - t) ++ rest
one_more t rest few = let count : 255 - t ≡ suc (255 - (t + 1) % 256) = omega arith in rw count refl

module _ (spm : Spm) where
  abbrev State : Type 0
  State = Loader spm

  abbrev running : State → Bool
  running l = l.storage.run_bootloader

  abbrev ticks : State → ℕ
  ticks l = l.ticks_since_last_command

  abbrev counted : State → State
  counted l = record l { ticks_since_last_command = (ticks l + 1) % 256 }

  abbrev Left : List (Option Command) → State → List (Option Command) → State → Type 0
  Left es l rest l' = main_loop spm es l ≡ some (rest, l')

  loop-running :
      (e : Option Command) (es : List (Option Command)) (l : State)
      → running l ≡ true
      → main_loop spm (e ∷ es) l ≡ main_loop spm es (ms_usb_task spm e l)
  unfolding main_loop
  loop-running e es l on = rw on refl

  loop-counting :
      (e : Option Command) (es : List (Option Command)) (l : State)
      → running l ≡ false
      → ticks l < 255
      → main_loop spm (e ∷ es) l ≡ main_loop spm es (ms_usb_task spm e (counted l))
  unfolding main_loop
  loop-counting e es l off few =
      let below : ltb (ticks l) 255 ≡ true = ground arith in rw (off, below) refl

  loop-over :
      (e : Option Command) (es : List (Option Command)) (l : State)
      → running l ≡ false
      → 255 ≤ ticks l
      → main_loop spm (e ∷ es) l ≡ some (e ∷ es, counted l)
  unfolding main_loop
  loop-over e es l off many =
      let at_end : ltb (ticks l) 255 ≡ false = ground arith in rw (off, at_end) refl

  -- Idle rounds are counted, and the loop is over when there are enough of them.
  loop-idle :
      (n : ℕ) (e : Option Command) (es : List (Option Command)) (l : State)
      → running l ≡ false
      → ticks l + n ≡ 255
      → (l' : State) × Left (idle n ++ (e ∷ es)) l (e ∷ es) l'
  unfolding ms_usb_task
  loop-idle zero e es l off count = (_, loop-over e es l off (omega arith))
  loop-idle (suc n) e es l off count =
      let rest = loop-idle n e es (counted l) off (omega arith) in
      (rest.0, loop-counting none (idle n ++ (e ∷ es)) l off (omega arith) ∙ rest.1)

  -- Where the loop is left, only idle rounds have passed since `l`, or a command came in between.
  Passed : List (Option Command) → State → List (Option Command) → Type 0
  Passed es l rest = ((running l ≡ false) × (es ≡ idle (255 - ticks l) ++ rest)) ⊎ EndsIn es rest

  command-resets : (c : Command) (l : State) → ticks (command_received spm c l).1 ≡ 0
  unfolding command_received
  command-resets c l = refl

  command_passes :
      (c : Command) (es rest : List (Option Command)) (l l0 : State)
      → Passed es (command_received spm c l).1 rest
      → Passed (some c ∷ es) l0 rest
  unfolding Passed
  command_passes c es rest l l0 (inl h) =
      inr
        ([], c, ap (λ t. some c ∷ t) (h.1 ∙ ap (λ n. idle (255 - n) ++ rest) (command-resets c l)))
  command_passes c es rest l l0 (inr h) = inr (later (some c) es rest h)

  idle_running :
      (es rest : List (Option Command)) (l : State)
      → running l ≡ true
      → Passed es l rest
      → Passed (none ∷ es) l rest
  unfolding Passed
  idle_running es rest l on (inl h) = absurd (ground arith)
  idle_running es rest l on (inr h) = inr (later none es rest h)

  idle_counting :
      (es rest : List (Option Command)) (l : State)
      → running l ≡ false
      → ticks l < 255
      → Passed es (counted l) rest
      → Passed (none ∷ es) l rest
  unfolding Passed
  idle_counting es rest l off few (inl h) =
      inl (off, ap (λ t. none ∷ t) h.1 ∙ one_more (ticks l) rest few)
  idle_counting es rest l off few (inr h) = inr (later none es rest h)

  over-Passed :
      (e : Option Command) (es : List (Option Command)) (l : State) (rest : List (Option Command))
      (l' : State)
      → running l ≡ false
      → 255 ≤ ticks l
      → Left (e ∷ es) l rest l'
      → Passed (e ∷ es) l rest
  unfolding Passed
  over-Passed e es l rest l' off many h =
      let same : e ∷ es ≡ rest = ap (rounds_of es) (sym (loop-over e es l off many) ∙ h) in
      let none_left : 0 ≡ 255 - ticks l = omega arith in
      inl (off, same ∙ ap (λ n. idle n ++ rest) none_left)
    where
      rounds_of :
          List (Option Command) → Option (List (Option Command) × State) → List (Option Command)
      rounds_of d none = d
      rounds_of d (some r) = r.0

  ended-Passed :
      (es : List (Option Command)) (l : State) (rest : List (Option Command)) (l' : State)
      → Left es l rest l'
      → Passed es l rest
  unfolding main_loop ms_usb_task
  ended-Passed [] l rest l' h = absurd (ground arith)
  ended-Passed (none ∷ es) l rest l' h = elim (Bool-cases (running l)) [
    | inl on ↦
        idle_running es rest l on (ended-Passed es l rest l' (sym (loop-running none es l on) ∙ h))
    | inr off ↦ elim (Bool-cases (ltb (ticks l) 255)) [
      | inl few ↦ idle_counting es rest l off (ground arith) (
          ended-Passed es (counted l) rest l'
            (sym (loop-counting none es l off (ground arith)) ∙ h))
      | inr many ↦ over-Passed none es l rest l' off (ground arith) h
    ]
  ]
  ended-Passed (some c ∷ es) l rest l' h = elim (Bool-cases (running l)) [
    | inl on ↦ command_passes c es rest l l (
        ended-Passed es (command_received spm c l).1 rest l'
          (sym (loop-running (some c) es l on) ∙ h))
    | inr off ↦ elim (Bool-cases (ltb (ticks l) 255)) [
      | inl few ↦ command_passes c es rest (counted l) l (
          ended-Passed es (command_received spm c (counted l)).1 rest l'
            (sym (loop-counting (some c) es l off (ground arith)) ∙ h))
      | inr many ↦ over-Passed (some c) es l rest l' off (ground arith) h
    ]
  ]

  eject-stops :
      (c : Command) (l : State)
      → c.cdb 0 ≡ 0x1b
      → bit_and (c.cdb 4) 3 ≡ 2
      → running (command_received spm c l).1 ≡ false
  unfolding command_received decode_scsi_command dispatch_scsi
  eject-stops c l op eject = rw (op, eject) refl

  -- The boot loader, while it is not yet to be left, is only left after a command and 255 rounds of its
  -- loop without any other.
  pub main_loop-waits :
      (l : State) (es rest : List (Option Command)) (l' : State)
      → running l ≡ true
      → main_loop spm es l ≡ some (rest, l')
      → EndsIn es rest
  unfolding Passed
  main_loop-waits l es rest l' on h = elim (ended-Passed es l rest l' h) [
    | inl p ↦ absurd (ground arith)
    | inr p ↦ p
  ]

  -- The loop is over after a START STOP UNIT that ejects the volume and 255 rounds without a command.
  pub main_loop-leaves :
      (l : State) (c : Command) (e : Option Command) (rest : List (Option Command))
      → running l ≡ true
      → c.cdb 0 ≡ 0x1b
      → bit_and (c.cdb 4) 3 ≡ 2
      → (l' : State) × (main_loop spm (some c ∷ (idle 255 ++ (e ∷ rest))) l ≡ some (e ∷ rest, l'))
  unfolding ms_usb_task
  main_loop-leaves l c e rest on op eject =
      let after = (command_received spm c l).1 in
      let waited =
        loop-idle 255 e rest after (eject-stops c l op eject)
          (ap (λ n. n + 255) (command-resets c l)) in
      (waited.0, loop-running (some c) (idle 255 ++ (e ∷ rest)) l on ∙ waited.1)

  -- After a START STOP UNIT that ejects the volume and 255 rounds of the loop without a command, the boot
  -- loader is left, whatever would come next: it detaches from the host, stores the boot key, and lets the
  -- watchdog reset the chip.
  pub boot_main-leaves :
      (l : State) (c : Command) (e : Option Command) (rest : List (Option Command))
      → running l ≡ true
      → c.cdb 0 ≡ 0x1b
      → bit_and (c.cdb 4) 3 ≡ 2
      → (l' : State) × (boot_main spm (some c ∷ (idle 255 ++ (e ∷ rest))) l ≡ some l')
        × (l'.attached ≡ false)
        × (l'.boot_key ≡ magic_boot_key)
        × (l'.watchdog ≡ true)
  unfolding boot_main
  boot_main-leaves l c e rest on op eject =
      let over = main_loop-leaves (set_leds spm Leds.not_ready l) c e rest on op eject in
      (leave spm over.0, ap (leave_if_over spm) over.1, refl, refl, refl)
