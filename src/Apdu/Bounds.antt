-- ===== src/Apdu/Bounds.antt =====
-- A parsed command's data lies inside what was received.
use ledger_babylon_app.Common.{ℕ, ◌+◌, ◌≤◌, ◌≡◌, arith, List, some, length, length-drop}
use ledger_babylon_app.Apdu.{Command, apdu_parser}

-- What the parser accepts of a message that lies in the buffer is a header of five bytes and exactly
-- as many data bytes as Lc says; the data pointer then shows at least that many bytes of the buffer.
pub parser_bounds :
    (buf : List ℕ) (n : ℕ) {c : Command}
    → n ≤ length buf
    → apdu_parser buf n ≡ some c
    → (n ≡ 5 + c.lc) × (c.lc ≤ length c.bytes)
unfolding apdu_parser
parser_bounds buf n h e = ground (arith, length-drop 5 buf)
