-- ===== src/Parser/Grammar/Autoid.antt =====
-- Each node of the tree under `autoid` implements the grammar.
use usb_gpib.Base.{arith}
use usb_gpib.Parser.{parser_add_lower, parser_reset}
use usb_gpib.Parser.Commands.{dispatch}
use usb_gpib.Parser.Grammar.Nodes.{Implements, All, nodes, autoid_nodes}

pub autoid_nodes-Implements : All Implements autoid_nodes
unfolding parser_add_lower dispatch parser_reset nodes
autoid_nodes-Implements = (
  λ ch w. (ground arith, ground arith),
  (
    λ ch w. (ground arith, ground arith),
    (
      λ ch w. (ground arith, ground arith),
      (
        λ ch w. (ground arith, ground arith),
        (
          λ ch w. (ground arith, ground arith),
          (
            λ ch w. (ground arith, ground arith),
            (
              λ ch w. (ground arith, ground arith),
              (
                λ ch w. (ground arith, ground arith),
                (
                  λ ch w. (ground arith, ground arith),
                  (
                    λ ch w. (ground arith, ground arith),
                    (
                      λ ch w. (ground arith, ground arith),
                      (
                        λ ch w. (ground arith, ground arith),
                        (
                          λ ch w. (ground arith, ground arith),
                          (λ ch w. (ground arith, ground arith), tt),
                        ),
                      ),
                    ),
                  ),
                ),
              ),
            ),
          ),
        ),
      ),
    ),
  ),
)
