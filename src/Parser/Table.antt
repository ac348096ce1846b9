-- ===== src/Parser/Table.antt =====
-- The generated parser tree of SW/TestAndMeasurement/miniparser.c: a node is a count and that many
-- entries, each a character (with bit 7 set at a leaf) and the offset of the child, or the number
-- of the command.
use usb_gpib.Base.{ℕ, List, [], ◌∷◌}

abbrev pub cmd_parser : List ℕ
cmd_parser =
    0x06 ∷ 0x61 ∷ 0x0d ∷ 0x74 ∷ 0x4c ∷ 0x76 ∷ 0x7b ∷ 0x30 ∷ 0x84 ∷ 0x72 ∷ 0x9b ∷ 0x73 ∷ 0xa7 ∷ 0x02
    ∷ 0x75 ∷ 0x12 ∷ 0x64 ∷ 0x46 ∷ 0x01 ∷ 0x74 ∷ 0x15 ∷ 0x01 ∷ 0x6f ∷ 0x18 ∷ 0x01 ∷ 0x69 ∷ 0x1b
    ∷ 0x01 ∷ 0x64 ∷ 0x1e ∷ 0x02 ∷ 0x20 ∷ 0x23 ∷ 0xbf ∷ 0x05 ∷ 0x02 ∷ 0x6f ∷ 0x28 ∷ 0x73 ∷ 0x30
    ∷ 0x02 ∷ 0xee ∷ 0x00 ∷ 0x66 ∷ 0x2d ∷ 0x01 ∷ 0xe6 ∷ 0x01 ∷ 0x01 ∷ 0x6c ∷ 0x33 ∷ 0x01 ∷ 0x6f
    ∷ 0x36 ∷ 0x01 ∷ 0x77 ∷ 0x39 ∷ 0x02 ∷ 0xdf ∷ 0x02 ∷ 0x65 ∷ 0x3e ∷ 0x02 ∷ 0xf2 ∷ 0x03 ∷ 0x73
    ∷ 0x43 ∷ 0x01 ∷ 0xf4 ∷ 0x04 ∷ 0x01 ∷ 0x64 ∷ 0x49 ∷ 0x01 ∷ 0xf2 ∷ 0x11 ∷ 0x01 ∷ 0x65 ∷ 0x4f
    ∷ 0x01 ∷ 0x72 ∷ 0x52 ∷ 0x01 ∷ 0x6d ∷ 0x55 ∷ 0x02 ∷ 0x20 ∷ 0x5a ∷ 0xbf ∷ 0x09 ∷ 0x04 ∷ 0x63
    ∷ 0x63 ∷ 0x6c ∷ 0x66 ∷ 0x65 ∷ 0x69 ∷ 0x73 ∷ 0x6f ∷ 0x01 ∷ 0xf2 ∷ 0x06 ∷ 0x01 ∷ 0xe6 ∷ 0x07
    ∷ 0x01 ∷ 0x6f ∷ 0x6c ∷ 0x01 ∷ 0xe9 ∷ 0x08 ∷ 0x01 ∷ 0x74 ∷ 0x72 ∷ 0x01 ∷ 0x6f ∷ 0x75 ∷ 0x01
    ∷ 0x72 ∷ 0x78 ∷ 0x01 ∷ 0xe5 ∷ 0x0a ∷ 0x01 ∷ 0x65 ∷ 0x7e ∷ 0x01 ∷ 0x72 ∷ 0x81 ∷ 0x01 ∷ 0xbf
    ∷ 0x0b ∷ 0x02 ∷ 0x30 ∷ 0x89 ∷ 0x31 ∷ 0x91 ∷ 0x01 ∷ 0x30 ∷ 0x8c ∷ 0x02 ∷ 0xb0 ∷ 0x0c ∷ 0xb1
    ∷ 0x0d ∷ 0x01 ∷ 0x30 ∷ 0x94 ∷ 0x03 ∷ 0xb0 ∷ 0x0e ∷ 0xb1 ∷ 0x0f ∷ 0xb2 ∷ 0x10 ∷ 0x01 ∷ 0x65
    ∷ 0x9e ∷ 0x01 ∷ 0x73 ∷ 0xa1 ∷ 0x01 ∷ 0x65 ∷ 0xa4 ∷ 0x01 ∷ 0xf4 ∷ 0x12 ∷ 0x01 ∷ 0x74 ∷ 0xaa
    ∷ 0x01 ∷ 0x72 ∷ 0xad ∷ 0x01 ∷ 0x69 ∷ 0xb0 ∷ 0x01 ∷ 0x6e ∷ 0xb3 ∷ 0x01 ∷ 0x67 ∷ 0xb6 ∷ 0x02
    ∷ 0x20 ∷ 0xbb ∷ 0xbf ∷ 0x15 ∷ 0x02 ∷ 0x73 ∷ 0xc0 ∷ 0x6e ∷ 0xcc ∷ 0x01 ∷ 0x68 ∷ 0xc3 ∷ 0x01
    ∷ 0x6f ∷ 0xc6 ∷ 0x01 ∷ 0x72 ∷ 0xc9 ∷ 0x01 ∷ 0xf4 ∷ 0x13 ∷ 0x01 ∷ 0x6f ∷ 0xcf ∷ 0x01 ∷ 0x72
    ∷ 0xd2 ∷ 0x01 ∷ 0x6d ∷ 0xd5 ∷ 0x01 ∷ 0x61 ∷ 0xd8 ∷ 0x01 ∷ 0xec ∷ 0x14 ∷ []
