-- ===== src/Script/Description.antt =====
-- The text of an OP_RETURN script fits the array that it is written to.
use ledger_babylon_app.Common.{
  ℕ, zero, suc, ◌+◌, ◌-◌, ◌*◌, ◌≤◌, ◌<◌, ◌≡◌, inl, inr, refl, arith, List, [], ◌∷◌, ◌++◌, some,
  Option-cases, length, take, drop, length-append, length-take,
}
use ledger_babylon_app.Bytes.{byte_at}
use ledger_babylon_app.Script.{
  push_head, push_step, push_loop, format_opscript_script, hex_text, number_text, op_return_text,
}

length-hex_text : (bs : List ℕ) → length (hex_text bs) ≡ 2 * length bs
unfolding hex_text
length-hex_text [] = refl
length-hex_text (b ∷ bs) = omega (arith, length-hex_text bs)

-- The text of an opcode has at most two characters, and none where data follow.
push_head-bounds :
    (script : List ℕ) (opcode offset : ℕ) {h start : ℕ} {chars : List ℕ}
    → push_head script opcode offset ≡ some (h, start, chars)
    → (offset ≤ start) × (length chars ≤ 2) × (0 < h → length chars ≡ 0)
unfolding push_head number_text
push_head-bounds script opcode offset e = ground arith

-- A turn that goes on stays inside the script and writes at most twice the bytes that it takes, and
-- one character more.
push_step-bounds :
    (script : List ℕ) (offset : ℕ) (text : List ℕ) {offset' : ℕ} {text' : List ℕ}
    → push_step script offset text ≡ some (offset', text')
    → (offset < offset')
      × (offset' ≤ length script)
      × (length text' ≤ length text + 2 * (offset' - offset) + 1)
unfolding push_step
push_step-bounds script offset text e =
    elim (Option-cases (push_head script (byte_at script offset) (offset + 1))) [
      | inl n ↦ ground arith
      | inr ((h, start, chars), s) ↦
          let (later, short, alone) =
            push_head-bounds script (byte_at script offset) (offset + 1) s in
          let hex = hex_text (take h (drop start script)) in
          ground (
            arith,
            length-hex_text (take h (drop start script)),
            length-take h (drop start script),
            length-append chars ([] ++ (0x20 ∷ [])),
            length-append chars ((0x30 ∷ 0x78 ∷ hex) ++ (0x20 ∷ [])),
            length-append hex (0x20 ∷ []),
            length-append text (chars ++ ([] ++ (0x20 ∷ []))),
            length-append text (chars ++ ((0x30 ∷ 0x78 ∷ hex) ++ (0x20 ∷ []))),
          )
    ]

push_loop-bounds :
    (script : List ℕ) (n offset : ℕ) (text : List ℕ) {offset' : ℕ} {text' : List ℕ}
    → offset ≤ length script
    → push_loop script n offset text ≡ some (offset', text')
    → (offset ≤ offset')
      × (offset' ≤ length script)
      × (length text' ≤ length text + 2 * (offset' - offset) + n)
unfolding push_loop
push_loop-bounds script zero offset text h e = ground arith
push_loop-bounds script (suc n) offset text {offset'} {text'} h e =
    elim (Option-cases (push_step script offset text)) [
      | inl s ↦ ground arith
      | inr ((o, t), s) ↦ ground (
        arith,
        push_step-bounds script offset text s,
        push_loop-bounds script n o t {offset' = offset'} {text' = text'},
      )
    ]

-- The text that `format_opscript_script` writes for a script, its terminator counted, takes no more
-- than the MAX_OPRETURN_OUTPUT_DESC_SIZE = 185 bytes of the array.
pub description_fits :
    (script : List ℕ) {text : List ℕ}
    → format_opscript_script script ≡ some text
    → length text ≤ 9 + 5 * 3 + 2 * 80 + 1
unfolding format_opscript_script
description_fits script e = elim (Option-cases (push_loop script 5 1 op_return_text)) [
  | inl s ↦ ground arith
  | inr ((o, t), s) ↦ ground (
    arith,
    push_loop-bounds script 5 1 op_return_text {offset' = o} {text' = t},
    length-append (take (length t - 1) t) (0 ∷ []),
    length-take (length t - 1) t,
  )
]
