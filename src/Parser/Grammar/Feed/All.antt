-- ===== src/Parser/Grammar/Feed/All.antt =====
-- All nodes of the tree implement the grammar.
use usb_gpib.Parser.Grammar.Short.{short_nodes-Implements}
use usb_gpib.Parser.Grammar.Autoid.{autoid_nodes-Implements}
use usb_gpib.Parser.Grammar.Term.{term_nodes-Implements}
use usb_gpib.Parser.Grammar.Strings.{string_nodes-Implements}
use usb_gpib.Base.{◌++◌}
use usb_gpib.Parser.Grammar.Nodes.{
  Implements, All, All-append, nodes, short_nodes, autoid_nodes, term_nodes, string_nodes,
}

pub nodes-Implements : All Implements nodes
unfolding nodes
nodes-Implements =
    All-append Implements short_nodes (autoid_nodes ++ (term_nodes ++ string_nodes))
      short_nodes-Implements
      (All-append Implements autoid_nodes (term_nodes ++ string_nodes) autoid_nodes-Implements (
        All-append Implements term_nodes string_nodes term_nodes-Implements
          string_nodes-Implements))
