-- ===== src/Device/Tests.antt =====
-- The theorems on the search and the identification with a device that is always ready.
use usb_gpib.Base.{ℕ, zero, suc, List, [], ◌∷◌, refl, arith}
use usb_gpib.State.{World}
use usb_gpib.Exec.{Ensures, Returns}
use usb_gpib.Samples.{ready_env, idle}
use usb_gpib.Device.Search.{gpib_search, find_gpib_device}
use usb_gpib.Device.Search.Found.{IsResult, IsChosen, search-IsResult, find_gpib_device-IsChosen}
use usb_gpib.Device.Identify.{identify_gpib_device}
use usb_gpib.Device.Identify.Named.{IsNamed, identify-IsNamed}

search-IsResult_example : Returns (λ r u. IsResult r) (gpib_search ready_env idle)
search-IsResult_example = search-IsResult ready_env (omega arith) idle

find_gpib_device-IsChosen_example : Returns IsChosen (find_gpib_device ready_env idle)
find_gpib_device-IsChosen_example = find_gpib_device-IsChosen ready_env (omega arith) idle

-- A serial number that fills its memory.
abbrev letters : ℕ → List ℕ
letters zero = []
letters (suc n) = 65 ∷ letters n

abbrev stored : World
stored = record idle { serial = record { size = 102; kind = 3; text = letters 50 } }

identify-IsNamed_example : Ensures (λ _ u. IsNamed u) (identify_gpib_device ready_env stored)
identify-IsNamed_example = identify-IsNamed ready_env stored refl (omega arith)
