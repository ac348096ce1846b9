-- ===== src/Parser/Settings.antt =====
-- What the commands of miniparser.c do to the settings, the EEPROM and the response buffer.
use usb_gpib.Base.{
  ℕ, ◌≡◌, sym, codes, List, [], ◌∷◌, ◌≤◌, ◌<◌, ◌==◌, if◌then◌else◌, length, length-append,
  length-drop, take-append, take, drop, arith,
}
use usb_gpib.State.{World, Response}
use usb_gpib.Exec.{◌>>◌, Ensures}
use usb_gpib.Parser.Commands.{
  eeprom_update_if_changed, set_internal_response, gpib_set_readtermination, autoid_text, term_text,
  string_text, eeprom_after, cmd_autoid, cmd_autoid_query, cmd_term_query, cmd_string,
  cmd_string_query,
}

-- The response buffer keeps its 8 bytes; a response is shorter, and is read from within.
pub record IsResponse (r : Response) : Type 0 where
  pub size : length r.buffer ≡ 8
  pub len_lt : r.len < 8
  pub rpos_le : r.rpos ≤ r.len

-- `set_internal_response` keeps the buffer valid: a text that does not fit is dropped.
pub set_internal_response-IsResponse :
    (text : List ℕ) (w : World)
    → IsResponse w.response
    → Ensures (λ _ w'. IsResponse w'.response) (set_internal_response text w)
unfolding set_internal_response
set_internal_response-IsResponse text w h = ground (
  arith,
  length-append text (drop (length text) w.response.buffer),
  length-drop (length text) w.response.buffer,
)

-- What a host reads of a response: the bytes from the read position on.
abbrev pub pending : Response → List ℕ
pending r = drop r.rpos (take r.len r.buffer)

pending-set :
    (text : List ℕ) (w : World)
    → length text < 8
    → Ensures (λ _ w'. pending w'.response ≡ text) (set_internal_response text w)
unfolding set_internal_response
pending-set text w h = ground (arith, take-append text (drop (length text) w.response.buffer))

-- Storing a setting in the EEPROM is seen by the next read of its cell and by no other cell, also
-- where the write was left out because the cell held that value.
pub eeprom-update :
    (addr value a : ℕ) (w : World)
    → Ensures
        (λ _ w'. w'.eeprom a ≡ (if addr == a then value else w.eeprom a))
        (eeprom_update_if_changed addr value w)
unfolding eeprom_update_if_changed
eeprom-update addr value a w = ground arith

autoid_text_short : (v : ℕ) → length (autoid_text v) < 8
autoid_text_short v = ground arith

term_text_short : (v : ℕ) → length (term_text v) < 8
term_text_short v = ground arith

string_text_short : (v : ℕ) → length (string_text v) < 8
string_text_short v = ground arith

-- After the update the cell holds the value.
pub update_self : (addr value : ℕ) (rom : ℕ → ℕ) → eeprom_after addr value rom addr ≡ value
update_self addr value rom = ground arith

-- The word for a number in a table, or the word for all other numbers.
abbrev pub word : List (ℕ × List ℕ) → List ℕ → ℕ → List ℕ
word [] other v = other
word ((k, w) ∷ ws) other v = if v == k then w else word ws other v

-- The modes as the README spells them.
abbrev pub autoid_words : List (ℕ × List ℕ)
autoid_words =
    (0, codes "on")
    ∷ (1, codes "off")
    ∷ (2, codes "slow")
    ∷ (3, codes "slower")
    ∷ (4, codes "slowest")
    ∷ []

abbrev pub term_words : List (ℕ × List ℕ)
term_words = (0, codes "eoi") ∷ (10, codes "lf") ∷ (13, codes "cr") ∷ []

abbrev pub string_words : List (ℕ × List ℕ)
string_words = (0, codes "normal") ∷ (1, codes "short") ∷ []

autoid_text-word : (v : ℕ) → autoid_text v ≡ word autoid_words (codes "on") v
autoid_text-word v = ground arith

term_text-word : (v : ℕ) → term_text v ≡ word term_words (codes "eoi") v
term_text-word v = ground arith

string_text-word : (v : ℕ) → string_text v ≡ word string_words (codes "normal") v
string_text-word v = ground arith

-- A query queues the word of the mode that was set last as the response: for `autoid` on, off, slow, slower
-- and slowest for the modes 0 to 4, for `term` eoi, lf and cr for the characters 0, 10 and 13, for `string`
-- normal and short for 0 and 1; and on, eoi and normal for any other value.
pub query-set :
    (v : ℕ) (w : World)
    → (Ensures
        (λ _ w'. pending w'.response ≡ word autoid_words (codes "on") v)
        ((do cmd_autoid v; cmd_autoid_query) w))
      × Ensures
          (λ _ w'. pending w'.response ≡ word term_words (codes "eoi") v)
          ((do gpib_set_readtermination v; cmd_term_query) w)
      × Ensures
          (λ _ w'. pending w'.response ≡ word string_words (codes "normal") v)
          ((do cmd_string v; cmd_string_query) w)
unfolding eeprom_update_if_changed cmd_autoid cmd_autoid_query gpib_set_readtermination
    cmd_term_query cmd_string cmd_string_query
query-set v w = (
  rw (update_self 104 v w.eeprom, sym (autoid_text-word v))
      (pending-set (autoid_text v) _ (autoid_text_short v)),
  rw (sym (term_text-word v)) (pending-set (term_text v) _ (term_text_short v)),
  rw (update_self 106 v w.eeprom, sym (string_text-word v))
      (pending-set (string_text v) _ (string_text_short v)),
)
