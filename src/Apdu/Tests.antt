-- ===== src/Apdu/Tests.antt =====
-- A command with two bytes of data.
use ledger_babylon_app.Common.{ℕ, ◌+◌, ◌≡◌, ◌≤◌, refl, arith, List, [], ◌∷◌, some}
use ledger_babylon_app.Apdu.{Command, apdu_parser}
use ledger_babylon_app.Apdu.Bounds.{parser_bounds}

abbrev message : List ℕ
message = 0xe1 ∷ 0x00 ∷ 0 ∷ 1 ∷ 2 ∷ 8 ∷ 9 ∷ []

abbrev command : Command
command = record { cla = 0xe1; ins = 0; p1 = 0; p2 = 1; lc = 2; bytes = 8 ∷ 9 ∷ [] }

accepts : apdu_parser message 7 ≡ some command
unfolding apdu_parser
accepts = refl

parser_bounds_example : (7 ≡ 5 + 2) × (2 ≤ 2)
parser_bounds_example = parser_bounds message 7 (omega arith) accepts
