-- ===== src/Parser/Tests.antt =====
-- The theorems on the parser at concrete texts and settings.
use usb_gpib.Base.{none, some, [], ◌∷◌, ◌≡◌, refl, codes, ◌⊎◌, ◌≤◌, ◌++◌, arith}
use usb_gpib.State.{Env, Parser}
use usb_gpib.Exec.{Ensures, ◌>>◌}
use usb_gpib.Samples.{surroundings, ready_pins, idle, decoding}
use usb_gpib.Parser.{numparser_init}
use usb_gpib.Parser.Commands.{
  cmd_autoid, cmd_autoid_query, cmd_term_query, cmd_string, cmd_string_query,
  gpib_set_readtermination,
}
use usb_gpib.Parser.Message.{feed}
use usb_gpib.Parser.Grammar.Nodes.{nodes, offset, at_ps}
use usb_gpib.Parser.Grammar.Feed.{spec_feed, feed-eq-spec_feed}
use usb_gpib.Parser.Address.{
  add_chars, Holds, decimal, finalised, numbers_in_bounds, fourth_separator_overruns,
  parameters_select, large_number_wraps,
}
use usb_gpib.Parser.Settings.{pending, query-set}

abbrev host : Env
host = surroundings ready_pins (codes "autoid slow\n")

feed-eq-spec_feed_example :
    feed host 12 (at_ps (offset []) idle) ≡ spec_feed host 12 [] (at_ps (offset []) idle)
unfolding nodes
feed-eq-spec_feed_example = feed-eq-spec_feed host 12 [] idle refl

numbers_in_bounds_example :
    Holds
      (λ q. (q.num_idx ≡ 255) ⊎ (q.num_idx ≤ 3))
      (add_chars (codes " 12 5\n") (numparser_init idle.parser))
numbers_in_bounds_example = numbers_in_bounds (codes " 12 5\n") idle.parser (omega arith)

abbrev two_read : Parser
two_read = record (idle.parser) { num_idx = 2 }

fourth_separator_overruns_example : add_chars (32 ∷ 44 ∷ []) two_read ≡ none
fourth_separator_overruns_example = fourth_separator_overruns two_read 32 44 refl refl refl

parameters_select_example :
    (finalised (add_chars (32 ∷ (decimal 9 ++ (95 ∷ []))) (numparser_init decoding.parser)) decoding
      ≡ some 9)
    × (finalised
          (add_chars
            (32 ∷ (decimal 9 ++ (32 ∷ (decimal 2 ++ (95 ∷ [])))))
            (numparser_init decoding.parser))
          decoding
        ≡ some 105)
    × (finalised
          (add_chars
            (32 ∷ (decimal 9 ++ (32 ∷ (decimal 98 ++ (95 ∷ [])))))
            (numparser_init decoding.parser))
          decoding
        ≡ some 105)
parameters_select_example =
    parameters_select 9 2 decoding (omega arith) (omega arith) (omega arith) refl

large_number_wraps_example :
    finalised
      (add_chars (32 ∷ (decimal 278 ++ (95 ∷ []))) (numparser_init decoding.parser))
      decoding
    ≡ some 22
large_number_wraps_example = large_number_wraps 22 decoding (omega arith) (omega arith) refl

query-set_example :
    Ensures (λ _ w'. pending w'.response ≡ codes "slow") ((do cmd_autoid 2; cmd_autoid_query) idle)
    × Ensures
        (λ _ w'. pending w'.response ≡ codes "eoi")
        ((do gpib_set_readtermination 2; cmd_term_query) idle)
    × Ensures
        (λ _ w'. pending w'.response ≡ codes "normal")
        ((do cmd_string 2; cmd_string_query) idle)
query-set_example = query-set 2 idle
