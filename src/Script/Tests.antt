-- ===== src/Script/Tests.antt =====
-- Scripts of some transactions.
use ledger_babylon_app.Common.{
  ℕ, ◌+◌, ◌*◌, ◌≡◌, ◌≤◌, ◌↔◌, refl, arith, List, [], ◌∷◌, some, length, replicate,
}
use ledger_babylon_app.Script.{
  p2pkh, get_script_type, format_opscript_script, push_loop, push_step, push_head, hex_text,
  hex_digit, number_text,
}
use ledger_babylon_app.Script.Kinds.{template, script_type_iff}
use ledger_babylon_app.Script.Description.{description_fits}

-- OP_RETURN, 16, and the data ab cd: "OP_RETURN 16 0xabcd".
abbrev note_script : List ℕ
note_script = 0x6a ∷ 0x60 ∷ 0x02 ∷ 0xab ∷ 0xcd ∷ []

abbrev note_text : List ℕ
note_text =
    0x4f ∷ 0x50 ∷ 0x5f ∷ 0x52 ∷ 0x45 ∷ 0x54 ∷ 0x55 ∷ 0x52 ∷ 0x4e ∷ 0x20 ∷ 0x31 ∷ 0x36 ∷ 0x20 ∷ 0x30
    ∷ 0x78 ∷ 0x61 ∷ 0x62 ∷ 0x63 ∷ 0x64 ∷ 0 ∷ []

note_shown : format_opscript_script note_script ≡ some note_text
unfolding format_opscript_script push_loop push_step push_head hex_text hex_digit number_text
note_shown = refl

description_fits_example : length note_text ≤ 9 + 5 * 3 + 2 * 80 + 1
description_fits_example = description_fits note_script note_shown

script_type_iff_example :
    (get_script_type (template p2pkh (replicate 20 7)) ≡ some p2pkh)
    ↔ ((p : List ℕ) × (length p ≡ 20) × (template p2pkh (replicate 20 7) ≡ template p2pkh p))
script_type_iff_example = script_type_iff (template p2pkh (replicate 20 7)) p2pkh (omega arith)
