-- ===== src/Wallet/Decimal.antt =====
-- Decimal numbers in the texts of keys are read as they are written.
use ledger_babylon_app.Common.{
  ℕ, zero, suc, ◌+◌, ◌-◌, ◌*◌, ◌%◌, ◌^◌, ◌≤◌, ◌<◌, ◌≡◌, ap, ◌∙◌, arith, List, [], ◌∷◌, map, true,
  false, none, some, length, take, drop, get_or, All, leb, ◌==◌, ◌&&◌,
}
use ledger_babylon_app.Buffer.{Buffer, buffer_peek, buffer_seek_cur}
use ledger_babylon_app.Buffer.Bounds.{IsValid, seek-IsValid}
use ledger_babylon_app.Buffer.Contents.{contents, length-contents}
use ledger_babylon_app.Wallet.{is_digit, decimal_loop}

nil_cons : {c : ℕ} {xs : List ℕ} → [] ≡ c ∷ xs → ⊥
nil_cons e = cc

cons-head : {a c : ℕ} {xs ys : List ℕ} → a ∷ ys ≡ c ∷ xs → a ≡ c
cons-head e = cc

cons-tail : {a c : ℕ} {xs ys : List ℕ} → a ∷ ys ≡ c ∷ xs → ys ≡ xs
cons-tail e = cc

peek_at :
    (b : Buffer) (c : ℕ)
    → IsValid b
    → b.offset < b.size
    → get_or b.ptr b.offset 0 ≡ c
    → buffer_peek b ≡ some c
unfolding buffer_peek
peek_at b c v h e =
    let here : (b.offset + 0) % 2 ^ 32 ≡ b.offset = omega (arith, v) in
    let there : leb 1 ((b.size + 2 ^ 32 - b.offset) % 2 ^ 32) ≡ true = ground arith in
    rw there (rw here (ap some e))

step_eq :
    (b : Buffer)
    → IsValid b
    → b.offset < b.size
    → (buffer_seek_cur b 1).1 ≡ record b { offset = b.offset + 1 }
unfolding buffer_seek_cur
step_eq b v h = ground arith

-- The first of the elements from a position on.
head_of :
    (ptr : List ℕ) (o n c : ℕ) (xs : List ℕ)
    → take n (drop o ptr) ≡ c ∷ xs
    → (get_or ptr o 0 ≡ c) × (take (n - 1) (drop (o + 1) ptr) ≡ xs)
head_of [] zero zero c xs e = absurd (nil_cons e)
head_of [] zero (suc n) c xs e = absurd (nil_cons e)
head_of [] (suc o) zero c xs e = absurd (nil_cons e)
head_of [] (suc o) (suc n) c xs e = absurd (nil_cons e)
head_of (p ∷ ptr) zero zero c xs e = absurd (nil_cons e)
head_of (p ∷ ptr) zero (suc n) c xs e =
    (cons-head e, ap (λ k. take k ptr) (let h : suc n - 1 ≡ n = omega arith in h) ∙ cons-tail e)
head_of (p ∷ ptr) (suc o) n c xs e =
    let (h, t) = head_of ptr o n c xs e in
    (
      h,
      ap (λ k. take (n - 1) (drop k (p ∷ ptr))) (let h : suc o + 1 ≡ suc (o + 1) = omega arith in h)
          ∙ t,
    )

-- What `buffer_peek` sees and where a step of one leads, in a buffer of which `c` comes next.
pub peek-next :
    (b : Buffer) (c : ℕ) (xs : List ℕ)
    → IsValid b
    → contents b ≡ c ∷ xs
    → (buffer_peek b ≡ some c)
      × IsValid (buffer_seek_cur b 1).1
      × (contents (buffer_seek_cur b 1).1 ≡ xs)
peek-next b c xs v e =
    let more : b.offset < b.size = omega (arith, length-contents v, ap (λ l. length l) e) in
    let (first, rest) = head_of b.ptr b.offset (b.size - b.offset) c xs e in
    (
      peek_at b c v more first,
      (seek-IsValid 1 v).1,
      ap contents (step_eq b v more)
          ∙ ap (λ k. take k (drop (b.offset + 1) b.ptr))
              (let h : b.size - (b.offset + 1) ≡ b.size - b.offset - 1 = omega arith in h)
          ∙ rest,
    )

pub peek-end : (b : Buffer) → IsValid b → contents b ≡ [] → buffer_peek b ≡ none
unfolding buffer_peek
peek-end b v e =
    let all : b.offset ≡ b.size = omega (arith, v, length-contents v, ap (λ l. length l) e) in
    ground (arith, all)

-- The number that digits denote, after the number `r`.
unfoldable pub value : ℕ → List ℕ → ℕ
value r [] = r
value r (d ∷ ds) = value (10 * r + d) ds

-- Digits as characters.
abbrev pub digit_text : List ℕ → List ℕ
digit_text ds = map (λ d. 0x30 + d) ds

abbrev pub AreDigits : List ℕ → Type 0
AreDigits ds = All (λ d. d < 10) ds

-- The text does not go on with a digit.
abbrev pub Stops : List ℕ → Type 0
Stops [] = Unit
Stops (c ∷ rest) = is_digit c ≡ false

pub le-value : (r : ℕ) (ds : List ℕ) → r ≤ value r ds
unfolding value
le-value r [] = omega arith
le-value r (d ∷ ds) = omega (arith, le-value (10 * r + d) ds)

pub turn :
    (fuel k r d : ℕ) (b : Buffer) (xs : List ℕ)
    → IsValid b
    → contents b ≡ (0x30 + d) ∷ xs
    → d < 10
    → 10 * r + d < 2 ^ 32
    → (suc k == 2 && r == 0) ≡ false
    → decimal_loop (suc fuel) k r b ≡ decimal_loop fuel (suc k) (10 * r + d) (buffer_seek_cur b 1).1
unfolding decimal_loop
turn fuel k r d b xs v e small fits lead =
    let (peek, valid, rest) = peek-next b (0x30 + d) xs v e in
    let next : (10 * r + (0x30 + d - 0x30)) % 2 ^ 32 ≡ 10 * r + d = omega arith in
    rw (peek, decimal_loop) (rw next (rw lead (ground arith)))

pub stop :
    (fuel k r : ℕ) (b : Buffer) (rest : List ℕ)
    → IsValid b
    → contents b ≡ rest
    → Stops rest
    → decimal_loop (suc fuel) (suc k) r b ≡ (some r, b)
unfolding decimal_loop
stop fuel k r b [] v e h = rw (peek-end b v e, decimal_loop) (ground arith)
stop fuel k r b (c ∷ rest) v e h =
    let (peek, valid, after) = peek-next b c rest v e in
    rw (peek, decimal_loop) (rw h (ground arith))
