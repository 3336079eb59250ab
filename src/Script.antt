-- ===== src/Script.antt =====
-- src/common/script.c and the inline tests of script.h: the kinds of output scripts, and the text
-- that is shown for an OP_RETURN script. A script is the list of its bytes.
pub mod Kinds
pub mod Description
mod Tests
use ledger_babylon_app.Common.{
  ℕ, zero, suc, ◌+◌, ◌-◌, ◌*◌, ◌/◌, ◌%◌, ◌^◌, List, [], ◌∷◌, ◌++◌, Bool, true, false, ◌&&◌, ◌||◌,
  Option, none, some, if◌then◌else◌, leb, ltb, ◌==◌, length, take, drop,
}
use ledger_babylon_app.Bytes.{byte_at}

unfoldable pub is_p2wpkh : List ℕ → Bool
is_p2wpkh script = length script == 22 && (byte_at script 0 == 0x00 && byte_at script 1 == 0x14)

unfoldable pub is_p2wsh : List ℕ → Bool
is_p2wsh script = length script == 34 && (byte_at script 0 == 0x00 && byte_at script 1 == 0x20)

unfoldable pub is_opreturn : List ℕ → Bool
is_opreturn script = ltb 0 (length script) && (leb (length script) 83 && byte_at script 0 == 0x6a)

unfoldable pub get_push_script_size : ℕ → ℕ
get_push_script_size n =
    if leb n 16
    then 1
    else if ltb n 0x80
    then 2
    else if ltb n 0x8000
    then 3
    else if ltb n 0x800000
    then 4
    else if ltb n 0x80000000
    then 5
    else 6

-- `script_type_e`
pub data ScriptType : Type 0 where
  p2pkh p2sh p2wpkh p2wsh p2tr unknown_segwit : ScriptType

-- `none` is -1.
unfoldable pub get_script_type : List ℕ → Option ScriptType
get_script_type script =
    let n = length script in
    let at = byte_at script in
    if n == 25
      && (at 0 == 0x76 && (at 1 == 0xa9 && (at 2 == 0x14 && (at 23 == 0x88 && at 24 == 0xac))))
    then some p2pkh
    else if n == 23 && (at 0 == 0xa9 && (at 1 == 0x14 && at 22 == 0x87))
    then some p2sh
    else if n == 22 && (at 0 == 0x00 && at 1 == 0x14)
    then some p2wpkh
    else if n == 34 && (at 0 == 0x00 && at 1 == 0x20)
    then some p2wsh
    else if n == 34 && (at 0 == 0x51 && at 1 == 0x20)
    then some p2tr
    else if leb 4 n && (leb n 42 && (at 0 == 0 || leb 0x51 (at 0) && leb (at 0) 0x60))
    then (if n == 1 + 1 + at 1 then some unknown_segwit else none)
    else none

-- `hex[d]`
unfoldable pub hex_digit : ℕ → ℕ
hex_digit d = if ltb d 10 then 0x30 + d else 0x57 + d

unfoldable pub hex_text : List ℕ → List ℕ
unfolding hex_digit
hex_text [] = []
hex_text (b ∷ bs) = hex_digit (b / 16) ∷ hex_digit (b % 16) ∷ hex_text bs

-- `num`, a number from 1 to 16.
unfoldable pub number_text : ℕ → List ℕ
number_text num = if leb 10 num then 0x31 ∷ (0x30 + (num - 10)) ∷ [] else (0x30 + num) ∷ []

-- The chain of tests on the opcode: the length of the data to show, the offset after it, and the
-- text of the opcode itself; `none` is the return of -1. `offset` is behind the opcode.
unfoldable pub push_head : List ℕ → ℕ → ℕ → Option (ℕ × ℕ × List ℕ)
push_head script opcode offset =
    if ltb 0x60 opcode || (opcode == 0x50 || (opcode == 0x4d || opcode == 0x4e))
    then none
    else if opcode == 0
    then some (0, offset, 0x30 ∷ [])
    else if leb opcode 75
    then some (opcode, offset, [])
    else if opcode == 0x4c
    then (if leb (length script) offset
        then none
        else if leb (byte_at script offset) 75
        then none
        else some (byte_at script offset, offset + 1, []))
    else if opcode == 0x4f
    then some (0, offset, 0x2d ∷ 0x31 ∷ [])
    else if leb 0x51 opcode
    then some (0, offset, number_text (opcode - 0x50))
    else none

-- One turn of the loop: the offset and the text after it. `text` is what stands in `out` so far, and
-- `out_ctr` its length.
unfoldable pub push_step : List ℕ → ℕ → List ℕ → Option (ℕ × List ℕ)
push_step script offset text = elim (push_head script (byte_at script offset) (offset + 1)) [
  | none ↦ none
  | some head ↦
      let hex_length = head.0 in
      let start = head.1 in
      let b = byte_at script start in
      let shown =
        if ltb 0 hex_length
        then 0x30 ∷ 0x78 ∷ hex_text (take hex_length (drop start script))
        else [] in
      if ltb (length script) (start + hex_length)
      then none
      else if hex_length == 1 && (b == 0x81 || leb 1 b && leb b 16)
      then none
      else some (start + hex_length, text ++ (head.2 ++ (shown ++ (0x20 ∷ []))))
]

-- The loop, with `n` pushes to go of the five.
unfoldable pub push_loop : List ℕ → ℕ → ℕ → List ℕ → Option (ℕ × List ℕ)
push_loop script zero offset text = some (offset, text)
push_loop script (suc n) offset text =
    if ltb offset (length script)
    then (elim (push_step script offset text) [
      | none ↦ none
      | some next ↦ push_loop script n next.0 next.1
    ])
    else some (offset, text)

-- "OP_RETURN" and a space.
abbrev pub op_return_text : List ℕ
op_return_text = 0x4f ∷ 0x50 ∷ 0x5f ∷ 0x52 ∷ 0x45 ∷ 0x54 ∷ 0x55 ∷ 0x52 ∷ 0x4e ∷ 0x20 ∷ []

-- `out[out_ctr - 1] = '\0'`
abbrev pub terminate : List ℕ → List ℕ
terminate text = take (length text - 1) text ++ (0 ∷ [])

-- The text with its terminator, whose length is the result; `none` is -1.
unfoldable pub format_opscript_script : List ℕ → Option (List ℕ)
format_opscript_script script =
    if length script == 0 || (if byte_at script 0 == 0x6a then false else true)
    then none
    else if ltb 83 (length script)
    then none
    else if length script == 1
    then some (terminate op_return_text)
    else elim (push_loop script 5 1 op_return_text) [
      | none ↦ none
      | some (offset, text) ↦ if ltb offset (length script) then none else some (terminate text)
    ]
