-- ===== src/Transfer/Run/Interpreter.antt =====
-- The interpreter of internal commands keeps what the parser's state is no part of and each command keeps.
use usb_gpib.Base.{
  ℕ, zero, suc, Bool, true, false, ◌+◌, Option, some, none, ◌==◌, ◌||◌, leb, bit_and, if◌then◌else◌,
}
use usb_gpib.State.{World, Env, Parser}
use usb_gpib.Exec.{M, Outcome, ret, fault, pure, modify, ◌>>=◌, ◌>>◌}
use usb_gpib.Endpoint.{endpoint_read}
use usb_gpib.Parser.Commands.{dispatch}
use usb_gpib.Parser.{
  lower, next_byte, parser_loop, set_decoding, goto, numparser_init, parser_add_lower,
  numparser_addchar, parser_add, parser_reset,
}
use usb_gpib.Parser.Message.{feed_byte, feed, drain}
use usb_gpib.Transfer.Run.Guards.{Partly}
use usb_gpib.Transfer.Run.Guards.{Guards, Guards-bind}

module _ (I : World → Type 0)
    (parsed : (w : World) (p : Parser) → I w → I (record w { parser = p }))
    (obeys : (k : ℕ) → Guards I (dispatch k)) (e : Env) (taken : Guards I (endpoint_read e)) where
  -- The parser is no part of it.
  next_byte-Guards : Guards I next_byte
  unfolding next_byte
  next_byte-Guards w p = read_or _
    where
      read_or :
          (o : Option ℕ)
          → Partly
              (λ _ u. I u)
              (elim o as (λ _. Outcome ℕ) [
                | none ↦ fault
                | some v ↦ ret v (record w { parser = record (w.parser) { ps = w.parser.ps + 1 } })
              ])
      read_or none = tt
      read_or (some v) = parsed w _ p

  parser-Guards : (g : World → Parser) → Guards I (modify (λ w. record w { parser = g w }))
  parser-Guards g w p = parsed w _ p

  -- What an entry of a node does.
  by_entry :
      (n ch : ℕ) (dispatched : Bool) (c entry : ℕ) (hit leaf_ addr : Bool)
      → Guards I (parser_loop n ch true)
      → Guards I (parser_loop n ch dispatched)
      → Guards I (elim hit as (λ _. M Bool) [
        | true ↦
            if leaf_
            then (do
              set_decoding addr
              if addr
                  then (do modify (λ w. record w { parser = numparser_init w.parser }); pure false)
                  else (do dispatch entry; parser_loop n ch true))
            else (do goto entry; pure false)
        | false ↦ parser_loop n ch dispatched
      ])
  by_entry n ch dispatched c entry false leaf_ addr loop rest w p = rest w p
  by_entry n ch dispatched c entry true false addr loop rest w p = parsed w _ p
  by_entry n ch dispatched c entry true true true loop rest w p = parsed w _ p
  by_entry n ch dispatched c entry true true false loop rest w p =
      Guards-bind I (dispatch entry) _ (obeys entry) (λ _. loop) _
        (parsed w (record (w.parser) { decoding = false }) p)

  -- The loop over the entries of a node.
  loop-Guards : (n ch : ℕ) (dispatched : Bool) → Guards I (parser_loop n ch dispatched)
  unfolding parser_loop parser_reset
  loop-Guards zero ch dispatched w p = parsed w _ p
  loop-Guards (suc n) ch dispatched w p =
      Guards-bind I next_byte _ next_byte-Guards
        (λ c. Guards-bind I next_byte _ next_byte-Guards λ entry.
          by_entry n ch dispatched c entry (bit_and c 0x7f == ch) (leb 128 c) (entry == 17)
            (loop-Guards n ch true) (loop-Guards n ch dispatched))
        w p

  -- A digit, a separator or another character of the numbers.
  digit-Guards :
      (ch : ℕ) (w : World)
      → I w
      → (o : Option Parser)
      → Partly
          (λ _ u. I u)
          (elim o as (λ _. Outcome Bool) [
            | none ↦ fault
            | some p ↦ ret false (record w { parser = p })
          ])
  digit-Guards ch w p none = tt
  digit-Guards ch w p (some q) = parsed w _ p

  add_lower-Guards : (ch : ℕ) → Guards I (parser_add_lower ch)
  unfolding parser_add_lower
  add_lower-Guards ch w p = by_state w.parser.decoding
    where
      by_state :
          (decoding : Bool)
          → Partly
              (λ _ u. I u)
              (if decoding
                then elim (numparser_addchar ch w.parser) as (λ _. Outcome Bool) [
                  | none ↦ fault
                  | some p ↦ ret false (record w { parser = p })
                ]
                else (do n ← next_byte; parser_loop n ch false) w)
      by_state true = digit-Guards ch w p (numparser_addchar ch w.parser)
      by_state false = Guards-bind I next_byte _ next_byte-Guards (λ n. loop-Guards n ch false) w p

  pub add-Guards : (ch : ℕ) → Guards I (parser_add ch)
  unfolding parser_add
  add-Guards ch = add_lower-Guards (lower ch)

  feed_byte-Guards : (dat : ℕ) → Guards I (feed_byte dat)
  unfolding feed_byte
  feed_byte-Guards dat w p = by_end (dat == 13 || dat == 10)
    where
      by_end :
          (line_end : Bool)
          → Partly (λ _ u. I u) ((if line_end then pure false else parser_add dat) w)
      by_end true = p
      by_end false = add-Guards dat w p

  result-Guards :
      (executed : Bool) (n : ℕ) (m : M ℕ)
      → Guards I m
      → Guards I (elim executed as (λ _. M ℕ) [ true ↦ pure n | false ↦ m ])
  result-Guards true n m h w p = p
  result-Guards false n m h w p = h w p

  pub feed-Guards : (n : ℕ) → Guards I (feed e n)
  unfolding feed
  feed-Guards zero w p = p
  feed-Guards (suc n) w p =
      Guards-bind I (endpoint_read e) _ (taken)
        (λ dat.
          Guards-bind I (feed_byte dat) _ (feed_byte-Guards dat)
            λ executed. result-Guards executed n (feed e n) (feed-Guards n))
        w p

  pub drain-Guards : (n : ℕ) → Guards I (drain e n)
  unfolding drain
  drain-Guards zero w p = p
  drain-Guards (suc n) w p = Guards-bind I (endpoint_read e) _ (taken) (λ _. drain-Guards n) w p
