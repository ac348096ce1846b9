-- ===== src/Transfer/Run/Commands.antt =====
-- An internal command keeps the state valid, and the counters of the messages as they are.
use usb_gpib.Base.{
  ℕ, zero, suc, false, ◌≡◌, ◌≢◌, refl, sym, ◌∙◌, ap, subst, codes, List, [], ◌∷◌, some, none,
  length, length-append, length-drop, drop, get_elem?, inl, arith,
}
use usb_gpib.State.{World, Env, Lines, Tmc, Serial, Parser}
use usb_gpib.Exec.{M, fault, modify, ◌>>=◌}
use usb_gpib.Endpoint.{endpoint_read}
use usb_gpib.Parser.Address.Packed.{IsAddress, decode_addr-IsAddress}
use usb_gpib.Parser.Commands.{
  autoid_text, term_text, string_text, cmd_list, dispatch, eeprom_update_if_changed,
  set_internal_response, gpib_set_readtermination, cmd_autoid, cmd_autoid_query, cmd_term_query,
  cmd_term_store, cmd_ver_query, cmd_store_term, cmd_addr, jump_to_bootloader, cmd_string,
  cmd_string_query,
}
use usb_gpib.Parser.{parser_add, parser_reset, parser_finalize}
use usb_gpib.Parser.Message.{feed, process_internal_command}
use usb_gpib.Transfer.Run.Guards.{Partly, Partly-bind, Guards, Guards-bind}
use usb_gpib.Transfer.Run.Interpreter.{feed-Guards, add-Guards, drain-Guards}
use usb_gpib.Transfer.Run.Settled.{IsSplit, IsReadable, IsSettled}

-- The settings are no concern of the cell.
abbrev pub IsNoSetting : ℕ → Type 0
IsNoSetting cell = (cell ≢ 104) × (cell ≢ 105) × (cell ≢ 106)

module _ (cell value : ℕ) (text : Serial) (other : IsNoSetting cell) where
  -- The state is valid, and the counters are these.
  abbrev pub Commanded : Tmc → World → Type 0
  Commanded t u = IsSettled cell value text u × (u.tmc ≡ t)

  -- It keeps that, where it returns.
  abbrev pub Obeys : {A : Type 0} → M A → Type 0
  Obeys m = (t : Tmc) (w : World) → Commanded t w → Partly (λ _ u. Commanded t u) (m w)

  Obeys-bind :
      {A B : Type 0} (m : M A) (k : A → M B) → Obeys m → ((a : A) → Obeys (k a)) → Obeys (m >>= k)
  Obeys-bind m k h hk t w p =
      Partly-bind (λ _ u. Commanded t u) (λ _ u. Commanded t u) (m w) k (h t w p)
        λ a u q. hk a t u q

  -- A change of the rest of the state.
  unmoved :
      (w u : World)
      → u.tmc ≡ w.tmc
      → u.response ≡ w.response
      → u.gpib_addr ≡ w.gpib_addr
      → u.gpib.lines ≡ w.gpib.lines
      → u.eeprom ≡ w.eeprom
      → u.serial ≡ w.serial
      → IsSettled cell value text w
      → IsSettled cell value text u
  unmoved w u tmc response addr lines rom serial h = record {
    split = subst (λ (t : Tmc). IsSplit t.request_in_progress) (sym tmc) h.split;
    response = subst IsReadable (sym response) h.response;
    address = subst IsAddress (sym addr) h.address;
    eoi = ap (λ (l : Lines). l.eoi) lines ∙ h.eoi;
    rom = ap (λ r. r cell) rom ∙ h.rom;
    serial = serial ∙ h.serial;
  }

  store-Obeys : (addr v : ℕ) → addr ≢ cell → Obeys (eeprom_update_if_changed addr v)
  unfolding eeprom_update_if_changed
  store-Obeys addr v differs t w p = ground (arith, p.0)

  response-Obeys : (bytes : List ℕ) → Obeys (set_internal_response bytes)
  unfolding set_internal_response
  response-Obeys bytes t w p = ground (
    arith,
    p.0,
    length-append bytes (drop (length bytes) w.response.buffer),
    length-drop (length bytes) w.response.buffer,
  )

  -- A change of what is no part of it.
  free-Obeys :
      (g : World → World)
      → ((t : Tmc) (w : World) → Commanded t w → Commanded t (g w))
      → Obeys (modify g)
  free-Obeys g h = h

  termination-Obeys : (v : ℕ) → Obeys (gpib_set_readtermination v)
  unfolding gpib_set_readtermination
  termination-Obeys v t w p = (unmoved w _ refl refl refl refl refl refl p.0, p.1)

  apart : (setting : ℕ) → cell ≢ setting → setting ≢ cell
  apart setting h same = h (sym same)

  autoid-Obeys : (mode : ℕ) → Obeys (cmd_autoid mode)
  unfolding cmd_autoid
  autoid-Obeys mode = store-Obeys 104 mode (apart 104 other.0)

  string-Obeys : (v : ℕ) → Obeys (cmd_string v)
  unfolding cmd_string
  string-Obeys v = store-Obeys 106 v (apart 106 other.2)

  store_term-Obeys : (v : ℕ) → Obeys (cmd_store_term v)
  unfolding cmd_store_term
  store_term-Obeys v =
      Obeys-bind (eeprom_update_if_changed 105 v) _ (store-Obeys 105 v (apart 105 other.1))
        λ _. termination-Obeys v

  autoid_query-Obeys : Obeys cmd_autoid_query
  unfolding cmd_autoid_query
  autoid_query-Obeys t w p = response-Obeys (autoid_text (w.eeprom 104)) t w p

  term_query-Obeys : Obeys cmd_term_query
  unfolding cmd_term_query
  term_query-Obeys t w p = response-Obeys (term_text w.gpib.terminator) t w p

  string_query-Obeys : Obeys cmd_string_query
  unfolding cmd_string_query
  string_query-Obeys t w p = response-Obeys (string_text (w.eeprom 106)) t w p

  term_store-Obeys : Obeys cmd_term_store
  unfolding cmd_term_store
  term_store-Obeys t w p = store-Obeys 105 w.gpib.terminator (apart 105 other.1) t w p

  version-Obeys : Obeys cmd_ver_query
  unfolding cmd_ver_query
  version-Obeys = response-Obeys (codes "V2.4")

  -- Every command of a table.
  infixr 5 ◌also◌
  -- All of these commands do.
  data AllObey : List (M (Unit {0})) → Type 0 where
    none_left : AllObey []
    ◌also◌ :
        {cmd : M (Unit {0})} {cmds : List (M (Unit {0}))}
        → Obeys cmd
        → AllObey cmds
        → AllObey (cmd ∷ cmds)

  table-Obeys :
      (cmds : List (M (Unit {0}))) (k : ℕ)
      → AllObey cmds
      → Obeys (λ w. elim (get_elem? cmds k) [ none ↦ fault | some cmd ↦ cmd w ])
  table-Obeys [] k h t w p = tt
  table-Obeys (cmd ∷ cmds) zero (h also hs) t w p = h t w p
  table-Obeys (cmd ∷ cmds) (suc k) (h also hs) t w p = table-Obeys cmds k hs t w p

  boot-Obeys : Obeys jump_to_bootloader
  unfolding jump_to_bootloader
  boot-Obeys t w p = tt

  addr-Obeys : Obeys cmd_addr
  unfolding cmd_addr
  addr-Obeys t w p = p

  dispatch-Obeys : (k : ℕ) → Obeys (dispatch k)
  unfolding dispatch cmd_list
  dispatch-Obeys k t w p =
      table-Obeys cmd_list k
        (autoid-Obeys 0
          also autoid-Obeys 1
          also autoid-Obeys 2
          also autoid-Obeys 3
          also autoid-Obeys 4
          also autoid_query-Obeys
          also termination-Obeys 13
          also termination-Obeys 10
          also termination-Obeys 0
          also term_query-Obeys
          also term_store-Obeys
          also version-Obeys
          also autoid-Obeys 0
          also autoid-Obeys 1
          also store_term-Obeys 0
          also store_term-Obeys 10
          also store_term-Obeys 13
          also addr-Obeys
          also boot-Obeys
          also string-Obeys 1
          also string-Obeys 0
          also string_query-Obeys
          also none_left)
        t w p

  read-Obeys : (e : Env) → Obeys (endpoint_read e)
  unfolding endpoint_read
  read-Obeys e t w p = (unmoved w _ refl refl refl refl refl refl p.0, p.1)

  -- The parser is no part of it.
  parsed :
      (t : Tmc) (w : World) (p : Parser) → Commanded t w → Commanded t (record w { parser = p })
  parsed t w p h = (unmoved w _ refl refl refl refl refl refl h.0, h.1)

  finalize-Obeys : Obeys parser_finalize
  unfolding parser_finalize
  finalize-Obeys t w p =
      ground (arith, p.0, decode_addr-IsAddress w.gpib_addr w.parser.num0 w.parser.num1 p.0.address)

  cleared-IsSettled :
      (w : World)
      → IsSettled cell value text w
      → IsSettled cell value text
          (record w { response = record (w.response) { len = 0; rpos = 0 } })
  cleared-IsSettled w h = record {
    split = h.split;
    response = record { size = h.response.size; len_lt = omega arith; rpos_le = inl refl };
    address = h.address;
    eoi = h.eoi;
    rom = h.rom;
    serial = h.serial;
  }

  -- `ProcessInternalCommand`, where it returns.
  pub command-Obeys : (e : Env) (len : ℕ) → Obeys (process_internal_command e len)
  unfolding process_internal_command parser_reset
  command-Obeys e len t w p =
      let v = record w { response = record (w.response) { len = 0; rpos = 0 } } in
      let obeys : (k : ℕ) → Guards (Commanded t) (dispatch k) = λ k. dispatch-Obeys k t in
      Guards-bind (Commanded t) (feed e len) _
        (feed-Guards (Commanded t) (parsed t) obeys e (read-Obeys e t) len)
        (λ left.
          Guards-bind (Commanded t) (parser_add b'_') _
            (add-Guards (Commanded t) (parsed t) obeys e (read-Obeys e t) b'_')
            λ _.
              Guards-bind (Commanded t) parser_finalize _ (finalize-Obeys t)
                λ _. drain-Guards (Commanded t) (parsed t) obeys e (read-Obeys e t) left)
        (record v { parser = record (v.parser) { ps = 0; decoding = false } })
        (unmoved v _ refl refl refl refl refl refl (cleared-IsSettled w p.0), p.1)
