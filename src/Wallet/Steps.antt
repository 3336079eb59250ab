-- ===== src/Wallet/Steps.antt =====
-- Derivation steps in the texts of keys are read as they are written.
use ledger_babylon_app.Common.{
  ℕ, zero, suc, ◌+◌, ◌*◌, ◌^◌, ◌<◌, ◌≡◌, refl, sym, ap, ◌∙◌, subst, arith, List, [], ◌∷◌, ◌++◌,
  Bool, false, ◌&&◌, Option, none, some, length, length-append, drop, if◌then◌else◌, leb, ◌==◌,
}
use ledger_babylon_app.Buffer.{Buffer, buffer_seek_cur}
use ledger_babylon_app.Buffer.Bounds.{IsValid}
use ledger_babylon_app.Buffer.Contents.{contents, length-contents}
use ledger_babylon_app.Wallet.{
  decimal_loop, parse_unsigned_decimal, consume_character, finish_step, buffer_read_derivation_step,
}
use ledger_babylon_app.Wallet.Decimal.{
  peek-next, peek-end, value, le-value, digit_text, AreDigits, Stops, turn, stop,
}

-- A result of the loop that is a number, and what is left of the text.
abbrev Reads : Option ℕ × Buffer → ℕ → List ℕ → Type 0
Reads r v rest = (end : Buffer) × (r ≡ (some v, end)) × IsValid end × (contents end ≡ rest)

no_lead : (k r n : ℕ) → (k ≡ 0 → 0 < suc n → 0 < r) → (suc (suc k) == 2 && r == 0) ≡ false
no_lead zero r n h = let positive : 0 < r = h refl (omega arith) in ground (arith, positive)
no_lead (suc k) r n h = ground arith

loop-Reads :
    (ds : List ℕ) (fuel k r : ℕ) (b : Buffer) (rest : List ℕ)
    → IsValid b
    → contents b ≡ digit_text ds ++ rest
    → Stops rest
    → AreDigits ds
    → value r ds < 2 ^ 32
    → (k ≡ 0 → 0 < length ds → 0 < r)
    → length ds < fuel
    → Reads (decimal_loop fuel (suc k) r b) (value r ds) rest
unfolding value
loop-Reads ds zero k r b rest v e s a fits lead f = absurd (omega arith)
loop-Reads [] (suc fuel) k r b rest v e s a fits lead f = (b, stop fuel k r b rest v e s, v, e)
loop-Reads (d ∷ ds) (suc fuel) k r b rest v e s a fits lead f =
    let (peek, valid, after) = peek-next b (0x30 + d) (digit_text ds ++ rest) v e in
    let small : 10 * r + d < 2 ^ 32 = omega (arith, fits, le-value (10 * r + d) ds) in
    let (end, done, valid', left) =
      loop-Reads ds fuel (suc k) (10 * r + d) (buffer_seek_cur b 1).1 rest valid after s a.1 fits
        (λ h. absurd (omega arith)) (omega arith) in
    (
      end,
      turn fuel (suc k) r d b (digit_text ds ++ rest) v e a.0 small (no_lead k r (length ds) lead)
          ∙ done,
      valid',
      left,
    )

-- Digits of which the first is 0 only if it stands alone.
abbrev pub IsCanonical : List ℕ → Type 0
IsCanonical [] = ⊥
IsCanonical (d ∷ ds) = 0 < length ds → 0 < d

decimal-Reads :
    (ds : List ℕ) (b : Buffer) (rest : List ℕ)
    → IsValid b
    → contents b ≡ digit_text ds ++ rest
    → Stops rest
    → AreDigits ds
    → IsCanonical ds
    → value 0 ds < 2 ^ 32
    → Reads (parse_unsigned_decimal b) (value 0 ds) rest
unfolding parse_unsigned_decimal value
decimal-Reads [] b rest v e s a c fits = absurd c
decimal-Reads (d ∷ ds) b rest v e s a c fits =
    let (peek, valid, after) = peek-next b (0x30 + d) (digit_text ds ++ rest) v e in
    let small : 10 * 0 + d < 2 ^ 32 = omega (arith, a.0) in
    let room : length ds < length b.ptr = omega (
      arith,
      v,
      length-contents v,
      ap (λ l. length l) e,
      length-append (digit_text ds) rest,
      length-digit_text ds,
    ) in
    let (end, done, valid', left) =
      loop-Reads ds (length b.ptr) 0 (10 * 0 + d) (buffer_seek_cur b 1).1 rest valid after s a.1
        fits (λ h p. let q : 0 < d = c p in omega (arith, q)) room in
    (
      end,
      turn (length b.ptr) 0 0 d b (digit_text ds ++ rest) v e a.0 small refl ∙ done,
      valid',
      left,
    )
  where
    length-digit_text : (xs : List ℕ) → length (digit_text xs) ≡ length xs
    length-digit_text [] = refl
    length-digit_text (x ∷ xs) = ap suc (length-digit_text xs)

-- The mark ' of a hardened step.
unfoldable pub is_marked : List ℕ → Bool
is_marked [] = false
is_marked (c ∷ rest) = c == 0x27

abbrev pub unmarked : List ℕ → List ℕ
unmarked rest = if is_marked rest then drop 1 rest else rest

consume_mark :
    (b : Buffer) (rest : List ℕ)
    → IsValid b
    → contents b ≡ rest
    → ((consume_character b 0x27).0 ≡ is_marked rest)
      × (contents (consume_character b 0x27).1 ≡ unmarked rest)
unfolding consume_character is_marked
consume_mark b [] v e = rw (peek-end b v e, consume_character) (refl, e)
consume_mark b (c ∷ rest) v e =
    let (peek, valid, after) = peek-next b c rest v e in
    rw (peek, consume_character) (ground (arith, after, e))

finish :
    (v : ℕ) (b : Buffer) (rest : List ℕ)
    → IsValid b
    → contents b ≡ rest
    → ((finish_step (some v, b)).0
        ≡ (if leb (2 ^ 31) v then none else some (if is_marked rest then v + 2 ^ 31 else v)))
      × (contents (finish_step (some v, b)).1 ≡ (if leb (2 ^ 31) v then rest else unmarked rest))
unfolding finish_step
finish v b rest valid e =
    let (marked, gone) = consume_mark b rest valid e in rw (← marked) (ground (arith, gone, e))

-- For a buffer whose text goes on with a decimal number below 2^32, without leading zeros,
-- `buffer_read_derivation_step` fails if the number is 2^31 or more; else it returns the number, with its
-- bit 31 set if the mark ' follows it, and the text goes on behind the number and the mark.
pub derivation_step_lem :
    (ds : List ℕ) (b : Buffer) (rest : List ℕ)
    → IsValid b
    → contents b ≡ digit_text ds ++ rest
    → Stops rest
    → AreDigits ds
    → IsCanonical ds
    → value 0 ds < 2 ^ 32
    → let (out, end) = buffer_read_derivation_step b in
      let v = value 0 ds in
      let hardened = if is_marked rest then v + 2 ^ 31 else v in
      (out ≡ (if leb (2 ^ 31) v then none else some hardened))
      × (contents end ≡ (if leb (2 ^ 31) v then rest else unmarked rest))
unfolding buffer_read_derivation_step
derivation_step_lem ds b rest v e s a c fits =
    let (end, done, valid, left) = decimal-Reads ds b rest v e s a c fits in
    subst
      (λ p.
        ((finish_step p).0 ≡ (
          if leb (2 ^ 31) (value 0 ds)
          then none
          else some (if is_marked rest then value 0 ds + 2 ^ 31 else value 0 ds)))
        × (contents (finish_step p).1
            ≡ (if leb (2 ^ 31) (value 0 ds) then rest else unmarked rest)))
      (sym done) (finish (value 0 ds) end rest valid left)
