-- ===== src/Parser/Tests.antt =====
-- Three bytes in two buffers.
use ledger_babylon_app.Common.{
  ℕ, ◌+◌, ◌≡◌, ◌≤◌, ◌<◌, ◌⊎◌, arith, List, [], ◌∷◌, Bool, true, false, if◌then◌else◌, ltb, length,
  take, drop,
}
use ledger_babylon_app.Buffer.Bounds.{IsValid}
use ledger_babylon_app.Buffer.Contents.{contents}
use ledger_babylon_app.Parser.{
  Buffers, Step, finished, needs_more, dbuffer_read_bytes, parser_consolidate_buffers, parser_run,
}
use ledger_babylon_app.Parser.Joined.{joined, AreValid, dbuffer_read_bytes_lem}
use ledger_babylon_app.Parser.Consolidate.{consolidate_lem}
use ledger_babylon_app.Parser.Steps.{IsRun, parser_run-IsRun}

abbrev two : Buffers
two = (
  record { ptr = 1 ∷ 2 ∷ 0 ∷ 0 ∷ []; size = 2; offset = 1 },
  record { ptr = 3 ∷ 4 ∷ []; size = 2; offset = 0 },
)

two-AreValid : AreValid two
two-AreValid = record { first = omega arith; second = omega arith; small = omega arith }

dbuffer_read_bytes_lem_example :
    let (done, out, bs') = dbuffer_read_bytes two 2 in
    let seen : Bool × List ℕ × List ℕ = (done, out, joined bs') in
    seen ≡ (
      if ltb (length (joined two)) 2
      then (false, [], joined two)
      else (true, take 2 (joined two), drop 2 (joined two)))
dbuffer_read_bytes_lem_example = dbuffer_read_bytes_lem two 2 two-AreValid (omega arith)

consolidate_lem_example :
    let (done, bs') = parser_consolidate_buffers two 4 in
    ((length (joined two) ≤ 4)
      × (done ≡ true)
      × (contents bs'.0 ≡ joined two)
      × IsValid bs'.0
      × (bs'.1 ≡ two.1))
    ⊎ ((4 < length (joined two)) × (parser_consolidate_buffers two 4 ≡ (false, two)))
consolidate_lem_example = consolidate_lem two 4 two-AreValid (omega arith)

-- A first step that counts up, and a second one that waits for more.
abbrev two_steps : List (Step ℕ)
two_steps = (λ s bs. (finished, s + 1, bs)) ∷ ((λ s bs. (needs_more, s, bs)) ∷ [])

parser_run-IsRun_example : IsRun two_steps 0 7 two (parser_run two_steps 0 7 two)
parser_run-IsRun_example = parser_run-IsRun two_steps 0 7 two (omega arith)
