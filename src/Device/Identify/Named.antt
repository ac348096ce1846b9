-- ===== src/Device/Identify/Named.antt =====
-- The serial number that `identifyGpibDevice` leaves behind, however the device answers.
use usb_gpib.Base.{
  ℕ, Bool, true, false, not, ◌≡◌, refl, List, [], ◌++◌, ◌≤◌, ◌<◌, ◌+◌, ◌-◌, ◌*◌, ◌/◌, ◌||◌, ◌==◌,
  length, length-append, length-drop, take, drop, if◌then◌else◌, arith, codes,
}
use usb_gpib.State.{World, Env, Serial}
use usb_gpib.Exec.{M, pure, bind, Ensures, Ensures-bind, Ensures-weaken, Ensures-and, ◌>>=◌}
use usb_gpib.Gpib.Timeouts.{timeout_start, is_timedout}
use usb_gpib.Gpib.Lines.{gpib_ren}
use usb_gpib.Gpib.Handshake.Apart.{same, Apart, Keeps}
use usb_gpib.Gpib.Commands.{gpib_make_talker, gpib_untalk_unlisten}
use usb_gpib.Gpib.Commands.Apart.{make_talker-Keeps, untalk_unlisten-Keeps}
use usb_gpib.Device.Serial.{address_text, signature_text}
use usb_gpib.Device.Identify.{
  strip, idn_rounds, id_rounds, ask, hear, second_query, fall_back, take_answers,
  identify_gpib_device, is_hp,
}
use usb_gpib.Device.Identify.Clean.{IsClean, idn_rounds-IsClean, id_rounds-IsClean}
use usb_gpib.Device.Identify.Kept.{timed, start-Keeps, ask-Keeps, idn_rounds-Keeps, id_rounds-Keeps}
use usb_gpib.Device.Identify.Internal.{internal-IsClean, internal_end}
use usb_gpib.Device.Identify.Stripped.{
  IsBeginning, IsBeginning-refl, strip-IsBeginning, strip_end, is_ragged, beginning_same,
  beginning_plain, beginning_shorter,
}
use usb_gpib.Device.Identify.Allowed.{all_allowed, all_plain_lem}

-- The characters that the descriptor covers.
abbrev pub covered : Serial → List ℕ
covered s = take (s.size / 2 - 1) s.text

-- The serial number: fifty characters of memory, of which the descriptor covers a clean beginning; and
-- an address of two digits.
pub record IsNamed (w : World) : Type 0 where
  pub room : length w.serial.text ≡ 50
  pub within : w.serial.size ≤ 102
  pub clean : all_allowed (covered w.serial) ≡ true
  pub stripped : is_ragged (covered w.serial) ≡ false
  pub address : w.gpib_addr < 100

IsNamed-Apart : (w u : World) → Apart same w u → IsNamed w → IsNamed u
IsNamed-Apart w u a h = record {
  room = rw a.6 h.room;
  within = rw a.6 h.within;
  clean = rw a.6 h.clean;
  stripped = rw a.6 h.stripped;
  address = rw a.5 h.address;
}

-- The run keeps the serial number clean.
abbrev Names : {A : Type 0} → M A → Type 0
Names m = (w : World) → IsNamed w → Ensures (λ _ u. IsNamed u) (m w)

Names-bind :
    {A B : Type 0} (m : M A) (k : A → M B) → Names m → ((a : A) → Names (k a)) → Names (m >>= k)
Names-bind m k h hk w named =
    Ensures-bind (λ _ u. IsNamed u) (λ _ u. IsNamed u) (m w) k (h w named) λ a u n. hk a u n

Keeps-Names : {A : Type 0} (m : M A) → Keeps same m → Names m
Keeps-Names m h w named =
    Ensures-weaken (λ _ u. Apart same w u) (λ _ u. IsNamed u) (m w) (h w)
      λ _ u a. IsNamed-Apart w u a named

Names-if : {A : Type 0} (t : Bool) (m k : M A) → Names m → Names k → Names (if t then m else k)
Names-if true m k h _ = h
Names-if false m k _ h = h

-- A text is written over the memory, and the descriptor covers a beginning of it.
written-IsNamed :
    (ds cs : List ℕ) (kind : ℕ) (w : World)
    → IsBeginning ds cs
    → is_ragged ds ≡ false
    → IsClean cs
    → length w.serial.text ≡ 50
    → w.gpib_addr < 100
    → IsNamed (record w {
      serial = record {
        size = length ds * 2 + 2;
        kind = kind;
        text = cs ++ drop (length cs) w.serial.text;
      };
    })
written-IsNamed ds cs kind w b even clean room address =
    let count : (length ds * 2 + 2) / 2 - 1 ≡ length ds = omega arith in
    record {
      room = omega (
        arith,
        length-append cs (drop (length cs) w.serial.text),
        length-drop (length cs) w.serial.text,
        clean.1,
        room,
      );
      within = omega (arith, beginning_shorter ds cs b, clean.1);
      clean =
          rw (count, beginning_same ds cs b (drop (length cs) w.serial.text))
            (all_plain_lem ds (beginning_plain ds cs b clean.0));
      stripped = rw (count, beginning_same ds cs b (drop (length cs) w.serial.text)) even;
      address = address;
    }

module _ (e : Env) where
  fall_back-Names : Names (fall_back e)
  unfolding fall_back
  fall_back-Names w h =
      let cs = address_text w.gpib_addr ++ signature_text e 20 0 in
      written-IsNamed cs cs 3 w (IsBeginning-refl cs) (internal_end e w.gpib_addr)
        (internal-IsClean e w.gpib_addr h.address) h.room h.address

  -- The answer is written, and the bus is freed.
  close_hear :
      (cs : List ℕ) (comma : Bool) (w : World)
      → IsClean cs
      → IsNamed w
      → Ensures {A = ℕ × Bool}
          (λ _ u. IsNamed u)
          (bind
            (gpib_untalk_unlisten e is_timedout (record w {
              serial = record (w.serial) {
                size = length (strip w.serial cs) * 2 + 2;
                text = cs ++ drop (length cs) w.serial.text;
              };
            }))
            (λ t. pure (length (strip w.serial cs), comma)))
  close_hear cs comma w clean named =
      Names-bind (gpib_untalk_unlisten e is_timedout)
        (λ t. pure (length (strip w.serial cs), comma))
        (Keeps-Names _ (untalk_unlisten-Keeps same e is_timedout (timed e))) (λ t u n. n) _
        (written-IsNamed (strip w.serial cs) cs w.serial.kind w (strip-IsBeginning w.serial cs)
          (strip_end w.serial cs) clean named.room named.address)

  hear-Names :
      (rounds : M (List ℕ × Bool))
      → Keeps same rounds
      → ((w : World) → Ensures (λ r u. IsClean r.0) (rounds w))
      → Names (hear e rounds)
  hear-Names rounds keeps clean w named =
      Names-bind (timeout_start 100000) _ (Keeps-Names _ (start-Keeps e 100000))
        (λ _ v n.
          Names-bind (gpib_make_talker e v.gpib_addr is_timedout) _
            (Keeps-Names _ (make_talker-Keeps same e is_timedout (timed e) v.gpib_addr))
            (λ t u n'.
              Ensures-bind (λ r x. Apart same u x × IsClean r.0) (λ _ x. IsNamed x) (rounds u) _
                (Ensures-and (λ r x. Apart same u x) (λ r x. IsClean r.0) (rounds u) (keeps u)
                  (clean u))
                λ r x h. close_hear r.0 r.1 x h.1 (IsNamed-Apart u x h.0 n'))
            v n)
        w named

  second_query-Names : (len : ℕ) (comma : Bool) → Names (second_query e len comma)
  unfolding second_query
  second_query-Names len comma w named =
      Names-bind (ask e (codes "ID?\n")) _ (Keeps-Names _ (ask-Keeps e (codes "ID?\n")))
        (λ _ v.
          Names-if (v.timeouts.main == 0) (pure (len, comma))
            (hear e (id_rounds e e.polls [] comma)) (λ x n. n)
            (hear-Names (id_rounds e e.polls [] comma) (id_rounds-Keeps e e.polls [] comma)
              λ x. id_rounds-IsClean e e.polls [] comma x refl (omega arith))
            v)
        w named

  take_answers-Names : Names (take_answers e)
  unfolding take_answers
  take_answers-Names w named =
      Names-bind (hear e (idn_rounds e e.polls 0 [] false)) _
        (hear-Names (idn_rounds e e.polls 0 [] false) (idn_rounds-Keeps e e.polls 0 [] false)
          λ x. idn_rounds-IsClean e e.polls 0 [] false x refl (omega arith))
        (λ r v.
          Names-bind
            (if v.timeouts.main == 0 || r.0 == 0 then second_query e r.0 r.1 else pure (r.0, r.1)) _
            (Names-if (v.timeouts.main == 0 || r.0 == 0) (second_query e r.0 r.1) (pure (r.0, r.1))
              (second_query-Names r.0 r.1) (λ x n. n))
            (λ r' u.
              Names-if (u.timeouts.main == 0 || r'.0 == 0 || not (r'.1 || is_hp u.serial.text))
                (fall_back e) (pure true) fall_back-Names (λ x n. n) u)
            v)
        w named

  -- However the device answers, `identifyGpibDevice` leaves a serial number whose descriptor covers
  -- nothing but the memory of `tmc_serial_string`, and there only digits, letters of ASCII and the characters
  -- ! # $ % ' ( ) + - . ; < = > @ [ ] ^ _ ` { | } and ~; it does not end in an underscore, but
  -- where that is its only character; where the memory has its fifty characters and the
  -- address has two digits.
  pub identify-IsNamed :
      (w : World)
      → length w.serial.text ≡ 50
      → w.gpib_addr < 100
      → Ensures (λ _ u. IsNamed u) (identify_gpib_device e w)
  unfolding identify_gpib_device gpib_ren
  identify-IsNamed w room address =
      Names-bind (ask e (codes "*IDN?\n")) _ (Keeps-Names _ (ask-Keeps e (codes "*IDN?\n")))
        (λ _ v.
          Names-bind (if v.timeouts.main == 0 then fall_back e else take_answers e) _
            (Names-if (v.timeouts.main == 0) (fall_back e) (take_answers e) fall_back-Names
              take_answers-Names)
            (λ received x n. IsNamed-Apart x _ (refl, refl, refl, refl, refl, refl, refl, λ h. h) n)
            v)
        (record w { serial = record (w.serial) { size = 0 } })
        (record {
          room = room;
          within = omega arith;
          clean = refl;
          stripped = refl;
          address = address;
        })
