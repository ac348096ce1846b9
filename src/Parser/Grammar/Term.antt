-- ===== src/Parser/Grammar/Term.antt =====
-- Each node of the tree under `term` implements the grammar.
use usb_gpib.Base.{arith}
use usb_gpib.Parser.{parser_add_lower, parser_reset}
use usb_gpib.Parser.Commands.{dispatch}
use usb_gpib.Parser.Grammar.Nodes.{Implements, All, nodes, term_nodes}

pub term_nodes-Implements : All Implements term_nodes
unfolding parser_add_lower dispatch parser_reset nodes
term_nodes-Implements = (
  λ ch w. (ground arith, ground arith),
  (
    λ ch w. (ground arith, ground arith),
    (
      λ ch w. (ground arith, ground arith),
      (
        λ ch w. (ground arith, ground arith),
        (
          λ ch w. (ground arith, ground arith),
          (
            λ ch w. (ground arith, ground arith),
            (
              λ ch w. (ground arith, ground arith),
              (
                λ ch w. (ground arith, ground arith),
                (
                  λ ch w. (ground arith, ground arith),
                  (
                    λ ch w. (ground arith, ground arith),
                    (
                      λ ch w. (ground arith, ground arith),
                      (
                        λ ch w. (ground arith, ground arith),
                        (λ ch w. (ground arith, ground arith), tt),
                      ),
                    ),
                  ),
                ),
              ),
            ),
          ),
        ),
      ),
    ),
  ),
)
