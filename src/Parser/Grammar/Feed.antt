-- ===== src/Parser/Grammar/Feed.antt =====
-- The feeding loop of `ProcessInternalCommand` against the grammar: the tree never shows.
mod All
use All.{nodes-Implements}
use usb_gpib.Base.{
  ℕ, zero, suc, Bool, true, false, Option, none, some, ◌≡◌, refl, ◌∙◌, sym, ap, subst, List, [],
  ◌∷◌, ◌++◌, ◌+◌, ◌||◌, ◌==◌, if◌then◌else◌, Bool-cases, Option-cases, inl, inr, arith,
}
use usb_gpib.State.{World, Env}
use usb_gpib.Exec.{
  M, Outcome, ret, waiting, fault, halted, pure, modify, bind, bind_assoc, ◌>>=◌, ◌>>◌,
}
use usb_gpib.Parser.{
  parser_add, parser_add_lower, parser_reset, goto, set_decoding, numparser_init, lower,
}
use usb_gpib.Parser.Commands.{dispatch}
use usb_gpib.Parser.Message.{feed_byte, feed}
use usb_gpib.Endpoint.{endpoint_read}
use usb_gpib.Parser.Grammar.{grammar, Verdict, restart, more, whole, recognise}
use usb_gpib.Parser.Grammar.Nodes.{
  nodes, find, offset, is_known, known_verdict, at_ps, obey, Implements, All-find,
}

known-Implements : (t : List ℕ) → is_known t ≡ true → Implements (offset t, t)
known-Implements t h = elim (Option-cases (find nodes t)) [
  | inl e ↦ absurd (ground arith)
  | inr (p, e) ↦
      subst (λ q. Implements (q, t)) (offset_eq p e)
        (All-find Implements nodes t p nodes-Implements e)
]
  where
    offset_eq : (p : ℕ) → find nodes t ≡ some p → p ≡ offset t
    offset_eq p e = ground arith

offset-nil : offset [] ≡ 0
unfolding nodes
offset-nil = refl

nil-is_known : is_known [] ≡ true
unfolding nodes
nil-is_known = refl

-- What follows a character, by the verdict on it; `go` feeds the rest of the text from a beginning
-- of a command, `addr` the rest of an address, and `n` bytes are left.
abbrev pub after : (List ℕ → M ℕ) → M ℕ → ℕ → Verdict → M ℕ
after go addr n restart = do parser_reset; go []
after go addr n (more t) = do goto (offset t); go t
after go addr n (whole k) =
    if k == 17 then (do obey (whole 17); addr) else (do dispatch k; parser_reset; pure n)

module _ (e : Env) where
  -- Feeding by the grammar alone: `t` is the text of the command so far.
  unfoldable pub spec_feed : ℕ → List ℕ → M ℕ
  spec_feed zero t = pure 0
  spec_feed (suc n) t = do
    dat ← endpoint_read e
    if dat == 13 || dat == 10
        then spec_feed n t
        else after (spec_feed n) (feed e n) n (recognise grammar (t ++ (lower dat ∷ [])))

  continue_with : ℕ → Bool → M ℕ
  continue_with n executed = elim executed [ true ↦ pure n | false ↦ feed e n ]

  obey-after :
      (n p : ℕ) (v : Verdict) (w : World)
      → known_verdict v ≡ true
      → ((t : List ℕ) (u : World)
          → is_known t ≡ true
          → feed e n (at_ps (offset t) u) ≡ spec_feed n t (at_ps (offset t) u))
      → bind (obey v (at_ps p w)) (continue_with n) ≡ after (spec_feed n) (feed e n) n v (at_ps p w)
  unfolding parser_reset continue_with
  obey-after n p restart w k ih = ground (arith, ih [] w, offset-nil, nil-is_known)
  obey-after n p (more t) w k ih = ih t w k
  obey-after n p (whole k) w h ih = elim (Bool-cases (k == 17)) [
    | inl addr ↦ rw addr
    | inr other ↦ rw other (bind_assoc (dispatch k (at_ps p w)) _ _)
  ]

  -- The world after one byte was taken from the endpoint.
  abbrev taken : World → World
  taken w = record w { usb = record (w.usb) { taken = w.usb.taken + 1 } }

  -- From the node of any beginning of a command, the loop that feeds the table-driven parser does what
  -- the grammar of the commands says: it restarts, goes on, or dispatches the command that is spelled,
  -- whatever bytes follow.
  pub feed-eq-spec_feed :
      (n : ℕ) (t : List ℕ) (w : World)
      → is_known t ≡ true
      → feed e n (at_ps (offset t) w) ≡ spec_feed n t (at_ps (offset t) w)
  unfolding feed spec_feed feed_byte parser_add continue_with
  feed-eq-spec_feed zero t w h = refl
  feed-eq-spec_feed (suc n) t w h =
      let dat = e.out_bytes w.usb.taken in
      let node = known-Implements t h (lower dat) (taken w) in
      elim (Bool-cases (dat == 13 || dat == 10)) [
        | inl line_end ↦ rw line_end (feed-eq-spec_feed n t (taken w) h)
        | inr other ↦
            rw (other, node.0)
              (obey-after n (offset t) (recognise grammar (t ++ (lower dat ∷ []))) (taken w) node.1
                (feed-eq-spec_feed n))
      ]
