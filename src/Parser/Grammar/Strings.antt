-- ===== src/Parser/Grammar/Strings.antt =====
-- Each node of the tree under `string` implements the grammar.
use usb_gpib.Base.{arith}
use usb_gpib.Parser.{parser_add_lower, parser_reset}
use usb_gpib.Parser.Commands.{dispatch}
use usb_gpib.Parser.Grammar.Nodes.{Implements, All, nodes, string_nodes}

pub string_nodes-Implements : All Implements string_nodes
unfolding parser_add_lower dispatch parser_reset nodes
string_nodes-Implements = (
  λ ch w. (ground arith, ground arith),
  (
    λ ch w. (ground arith, ground arith),
    (
      λ ch w. (ground arith, ground arith),
      (
        λ ch w. (ground arith, ground arith),
        (
          λ ch w. (ground arith, ground arith),
          (
            λ ch w. (ground arith, ground arith),
            (
              λ ch w. (ground arith, ground arith),
              (
                λ ch w. (ground arith, ground arith),
                (
                  λ ch w. (ground arith, ground arith),
                  (
                    λ ch w. (ground arith, ground arith),
                    (
                      λ ch w. (ground arith, ground arith),
                      (
                        λ ch w. (ground arith, ground arith),
                        (
                          λ ch w. (ground arith, ground arith),
                          (
                            λ ch w. (ground arith, ground arith),
                            (
                              λ ch w. (ground arith, ground arith),
                              (λ ch w. (ground arith, ground arith), tt),
                            ),
                          ),
                        ),
                      ),
                    ),
                  ),
                ),
              ),
            ),
          ),
        ),
      ),
    ),
  ),
)
