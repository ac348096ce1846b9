-- ===== src/Parser.antt =====
-- SW/TestAndMeasurement/miniparser.c: the interpreter of the settings that a `!` message carries.
mod Table
pub mod Commands
pub mod Grammar
pub mod Message
pub mod Address
pub mod Settings
mod Tests
use Table.{cmd_parser}
use Commands.{dispatch}
use usb_gpib.Base.{
  ℕ, zero, suc, Bool, true, false, Option, none, some, ◌+◌, ◌-◌, ◌*◌, ◌%◌, ◌&&◌, ◌==◌, not, ltb,
  leb, if◌then◌else◌, get_elem?, bit_and, bit_or,
}
use usb_gpib.State.{World, Parser}
use usb_gpib.Exec.{M, ret, fault, pure, modify, gets, skip, ◌>>=◌, ◌>>◌}

abbrev pub set_parser : Parser → World → World
set_parser p w = record w { parser = p }

-- `numparser_init`
abbrev pub numparser_init : Parser → Parser
numparser_init p = record p { num0 = 255; num1 = 255; num_idx = 255 }

-- `num[i]` of the three bytes `addr`; the third is `*num_idx` itself.
abbrev pub num_at : Parser → ℕ → Option ℕ
num_at p zero = some p.num0
num_at p (suc zero) = some p.num1
num_at p (suc (suc zero)) = some p.num_idx
num_at p (suc (suc (suc i))) = none

-- `num[i] = v` at the indices that the guard lets through.
abbrev pub set_num : Parser → ℕ → ℕ → Parser
set_num p zero v = record p { num0 = v }
set_num p (suc zero) v = record p { num1 = v }
set_num p (suc (suc i)) v = p

-- `num[i] = num[i] * 10 + (ch - '0')`, where 255 stands for no digit yet; a byte wraps.
abbrev pub push_digit : ℕ → ℕ → ℕ
push_digit num ch = ((if num == 255 then 0 else num) * 10 + (ch - 48)) % 256

-- The digit branch, for `*num_idx` already set. `sizeof(num)` is the size of a pointer: 2.
abbrev pub add_digit : Parser → ℕ → ℕ → Option Parser
add_digit p idx ch =
    let q = record p { num_idx = idx } in
    if ltb idx 2
    then elim (num_at q idx) [ none ↦ none | some num ↦ some (set_num q idx (push_digit num ch)) ]
    else some q

-- The branch of a character that is no digit.
abbrev pub end_number : Parser → Option Parser
end_number p = if p.num_idx == 255 then some p else elim (num_at p p.num_idx) [
  | none ↦ none
  | some num ↦ some (if num == 255 then p else record p { num_idx = (p.num_idx + 1) % 256 })
]

-- `numparser_addchar`; `none` is a read past the end of `addr`.
unfoldable pub numparser_addchar : ℕ → Parser → Option Parser
numparser_addchar ch p =
    if leb 48 ch && leb ch 57
    then add_digit p (if p.num_idx == 255 then 0 else p.num_idx) ch
    else end_number p

abbrev pub max_saddr : ℕ
max_saddr = 6

-- The address that `parser_finalize` stores in `gpib_addr`, given the one before.
abbrev pub decode_addr : ℕ → ℕ → ℕ → ℕ
decode_addr old paddr saddr =
    if not (leb 1 paddr && leb paddr 30)
    then old
    else if saddr == 255
    then paddr
    else let s = (if leb saddr max_saddr then saddr + 96 else saddr) in
      if leb 96 s && leb s (96 + max_saddr) then bit_or paddr ((s - 96 + 1) * 32) else old

-- `parser_finalize`
unfoldable pub parser_finalize : M (Unit {0})
parser_finalize = modify λ w.
    if not w.parser.decoding
    then w
    else record w { gpib_addr = decode_addr w.gpib_addr w.parser.num0 w.parser.num1 }

-- `parser_reset`
unfoldable pub parser_reset : M (Unit {0})
parser_reset = modify λ w. record w { parser = record (w.parser) { ps = 0; decoding = false } }

-- `pgm_read_byte(pparser_ps++)`
unfoldable pub next_byte : M ℕ
next_byte w = elim (get_elem? cmd_parser w.parser.ps) [
  | none ↦ fault
  | some v ↦ ret v (record w { parser = record (w.parser) { ps = w.parser.ps + 1 } })
]

abbrev pub set_decoding : Bool → M (Unit {0})
set_decoding d = modify λ w. record w { parser = record (w.parser) { decoding = d } }

abbrev pub goto : ℕ → M (Unit {0})
goto entry = modify λ w. record w { parser = record (w.parser) { ps = entry } }

-- A leaf: `addr` starts the number decoding and returns; any other command is called, and the loop
-- goes on to the next entry.
abbrev pub leaf : ℕ → M Bool → M Bool
leaf entryidx rest = do
  set_decoding (entryidx == 17)
  if entryidx == 17
      then (do modify (λ w. record w { parser = numparser_init w.parser }); pure false)
      else (do dispatch entryidx; rest)

-- The `while (cnt < entrycount)` loop of `parser_add`, by the entries left, and what follows it.
unfoldable pub parser_loop : ℕ → ℕ → Bool → M Bool
unfolding next_byte parser_reset
parser_loop zero ch dispatched = do parser_reset; pure dispatched
parser_loop (suc n) ch dispatched = do
  entrych ← next_byte
  entryidx ← next_byte
  elim (bit_and entrych 0x7f == ch) [
    | true ↦
        if leb 128 entrych
        then leaf entryidx (parser_loop n ch true)
        else (do goto entryidx; pure false)
    | false ↦ parser_loop n ch dispatched
  ]

abbrev pub lower : ℕ → ℕ
lower ch = if leb 65 ch && leb ch 90 then ch + 32 else ch

-- `parser_add` after the case conversion.
unfoldable pub parser_add_lower : ℕ → M Bool
unfolding numparser_addchar next_byte parser_loop
parser_add_lower ch w =
    if w.parser.decoding
    then elim (numparser_addchar ch w.parser) [ none ↦ fault | some p ↦ ret false (set_parser p w) ]
    else (do entrycount ← next_byte; parser_loop entrycount ch false) w

-- `parser_add`
unfoldable pub parser_add : ℕ → M Bool
unfolding parser_add_lower
parser_add ch = parser_add_lower (lower ch)
