-- ===== src/Bootloader/Main/Jump.antt =====
-- Whether a reset starts the application.
use usb_gpib.Base.{Bool, ◌≡◌, ◌&&◌, ◌==◌, not, bit_and, if◌then◌else◌, Bool-cases, inl, inr, arith}
use usb_gpib.Bootloader.Main.{Reset, application_jump_check}

abbrev starts : Reset → Bool
starts r = r.pb2 && not (r.first_word == 0xffff)

-- `Application_Jump_Check` starts the application exactly where PB2 is high and address 0 is not blank,
-- and then clears the boot key. The fuses, the reason of the reset and the boot key have no part in it.
pub application_jump_check_lem :
    (r : Reset)
    → ((application_jump_check r).0 ≡ starts r)
      × ((application_jump_check r).1.boot_key ≡ (if starts r then 0 else r.boot_key))
unfolding application_jump_check
application_jump_check_lem r = elim (Bool-cases (bit_and r.high_fuse 1 == 0)) [
  | inl set ↦ rw set (ground arith)
  | inr clear ↦ rw clear (ground arith)
]
