-- ===== src/Startup/Termination.antt =====
-- The read termination: the stored one at a start, and the one of a read request.
use usb_gpib.Base.{ℕ, ◌≡◌, subst, ◌||◌, ◌==◌, none, some, Option, bit_and, if◌then◌else◌, arith}
use usb_gpib.State.{World, Env}
use usb_gpib.Exec.{Returns}
use usb_gpib.Parser.Commands.{
  eeprom_update_if_changed, gpib_set_readtermination, cmd_store_term, cmd_term_store,
}
use usb_gpib.Parser.Settings.{update_self}
use usb_gpib.Transfer.Header.{Header}
use usb_gpib.Transfer.Task.{set_read_termination}
use usb_gpib.Startup.{apply_termination}

-- The character that ends a read, apart from EOI.
abbrev pub effective : World → Option ℕ
effective w = if w.gpib.terminator_enabled then some w.gpib.terminator else none

-- The start-up knows CR and LF; any other stored value is EOI only.
abbrev pub known : ℕ → Option ℕ
known t = if t == 10 || t == 13 then some t else none

applied : (w : World) → Returns (λ _ u. effective u ≡ known (w.eeprom 105)) (apply_termination w)
unfolding apply_termination
applied w = ground arith

applied_after :
    (v : World) (rom : ℕ → ℕ) (t : ℕ)
    → rom 105 ≡ t
    → Returns (λ _ u. effective u ≡ known t) (apply_termination (record v { eeprom = rom }))
applied_after v rom t e =
    subst
      (λ c. Returns (λ _ u. effective u ≡ known c) (apply_termination (record v { eeprom = rom })))
      e (applied (record v { eeprom = rom }))

-- A later start in state `v`, with the EEPROM of `u`, puts this termination in force.
abbrev pub StartsWith : Option ℕ → World → World → Type 0
StartsWith c v u =
    Returns (λ _ u'. effective u' ≡ c) (apply_termination (record v { eeprom = u.eeprom }))

-- The termination of a read request.
abbrev pub requested : Header → Option ℕ
requested h = if bit_and h.last_message 2 == 0 then none else some h.term_char

-- The termination of the commands `0100`, `0101` and `0102`, and the one that `term store` finds set,
-- is in force after a later start, whatever the rest of the state is then; and a read request replaces
-- whatever termination was in force by the one that it carries.
pub termination_persists :
    (e : Env) (t : ℕ) (h : Header) (w v : World)
    → Returns (λ _ u. StartsWith (known t) v u) (cmd_store_term t w)
      × Returns (λ _ u. StartsWith (known w.gpib.terminator) v u) (cmd_term_store w)
      × Returns (λ _ u. effective u ≡ requested h) (set_read_termination e h w)
unfolding cmd_store_term cmd_term_store eeprom_update_if_changed gpib_set_readtermination
    set_read_termination
termination_persists e t h w v = (
  applied_after v _ t (update_self 105 t w.eeprom),
  applied_after v _ w.gpib.terminator (update_self 105 w.gpib.terminator w.eeprom),
  ground arith,
)
