-- ===== src/Device/Descriptor.antt =====
-- `CALLBACK_USB_GetDescriptor` of Descriptors.c: which descriptor the USB library sends.
use usb_gpib.Base.{
  ℕ, Bool, true, false, List, ◌+◌, ◌*◌, ◌/◌, ◌%◌, ◌==◌, length, codes, if◌then◌else◌,
}
use usb_gpib.State.{Serial}

-- The objects that descriptors are sent from.
pub data Object : Type 0 where
  nothing device_descriptor configuration_descriptor : Object
  language_string manufacturer_string product_string tmc_serial_string : Object

-- The object, the number of bytes that are sent of it, and whether it is in RAM.
pub record Descriptor : Type 0 where
  pub address : Object
  pub size : ℕ
  pub in_ram : Bool

-- `USB_STRING_DESCRIPTOR`: the size of a header and its characters.
abbrev pub string_size : List ℕ → ℕ
string_size cs = 2 + 2 * length cs

-- sizeof of each object: three endpoints follow the interface in the configuration.
abbrev pub object_size : Object → ℕ
object_size nothing = 0
object_size device_descriptor = 18
object_size configuration_descriptor = 9 + 9 + 3 * 7
object_size language_string = 4
object_size manufacturer_string = string_size (codes "XyphroLabs")
object_size product_string = string_size (codes "GpibUsb")
object_size tmc_serial_string = 2 + 2 * 50

abbrev pub in_flash : Object → Descriptor
in_flash o = record { address = o; size = object_size o; in_ram = false }

-- The string with this number.
abbrev pub string_descriptor : ℕ → Serial → Descriptor
string_descriptor number s =
    if number == 0
    then in_flash language_string
    else if number == 1
    then in_flash manufacturer_string
    else if number == 2
    then in_flash product_string
    else if number == 3
    then record { address = tmc_serial_string; size = s.size; in_ram = true }
    else in_flash nothing

-- `CALLBACK_USB_GetDescriptor`
unfoldable pub get_descriptor : ℕ → Serial → Descriptor
get_descriptor value s =
    let kind = value / 256 % 256 in
    if kind == 1
    then in_flash device_descriptor
    else if kind == 2
    then in_flash configuration_descriptor
    else if kind == 3
    then string_descriptor (value % 256) s
    else in_flash nothing
