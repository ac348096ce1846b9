-- ===== src/Parser/Grammar/Short.antt =====
-- Each node of the tree under `short` implements the grammar.
use usb_gpib.Base.{arith}
use usb_gpib.Parser.{parser_add_lower, parser_reset}
use usb_gpib.Parser.Commands.{dispatch}
use usb_gpib.Parser.Grammar.Nodes.{Implements, All, nodes, short_nodes}

pub short_nodes-Implements : All Implements short_nodes
unfolding parser_add_lower dispatch parser_reset nodes
short_nodes-Implements = (
  λ ch w. (ground arith, ground arith),
  (
    λ ch w. (ground arith, ground arith),
    (
      λ ch w. (ground arith, ground arith),
      (
        λ ch w. (ground arith, ground arith),
        (
          λ ch w. (ground arith, ground arith),
          (
            λ ch w. (ground arith, ground arith),
            (
              λ ch w. (ground arith, ground arith),
              (
                λ ch w. (ground arith, ground arith),
                (
                  λ ch w. (ground arith, ground arith),
                  (
                    λ ch w. (ground arith, ground arith),
                    (
                      λ ch w. (ground arith, ground arith),
                      (
                        λ ch w. (ground arith, ground arith),
                        (
                          λ ch w. (ground arith, ground arith),
                          (
                            λ ch w. (ground arith, ground arith),
                            (
                              λ ch w. (ground arith, ground arith),
                              (λ ch w. (ground arith, ground arith), tt),
                            ),
                          ),
                        ),
                      ),
                    ),
                  ),
                ),
              ),
            ),
          ),
        ),
      ),
    ),
  ),
)
