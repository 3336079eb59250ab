-- ===== src/Script/Kinds.antt =====
-- The kinds of scripts against the templates of the addresses.
use ledger_babylon_app.Common.{
  ℕ, zero, suc, ◌+◌, ◌-◌, ◌*◌, ◌^◌, ◌≤◌, ◌<◌, ◌≡◌, ◌⊎◌, ◌↔◌, refl, ap, ap₂, ◌∙◌, arith, List, [],
  ◌∷◌, ◌++◌, some, length, take, length-append, length-take,
}
use ledger_babylon_app.Bytes.{byte_at}
use ledger_babylon_app.Script.{
  ScriptType, p2pkh, p2sh, p2wpkh, p2wsh, p2tr, unknown_segwit, get_script_type,
  get_push_script_size,
}

-- The script that pays to a hash or key, for the kinds with a fixed template.
abbrev pub template : ScriptType → List ℕ → List ℕ
template p2pkh hash = 0x76 ∷ 0xa9 ∷ 0x14 ∷ (hash ++ (0x88 ∷ 0xac ∷ []))
template p2sh hash = 0xa9 ∷ 0x14 ∷ (hash ++ (0x87 ∷ []))
template p2wpkh hash = 0x00 ∷ 0x14 ∷ hash
template p2wsh hash = 0x00 ∷ 0x20 ∷ hash
template p2tr key = 0x51 ∷ 0x20 ∷ key
template unknown_segwit program = []

-- The number of bytes of the hash or key.
abbrev pub program_size : ScriptType → ℕ
program_size p2pkh = 20
program_size p2sh = 20
program_size p2wpkh = 20
program_size p2wsh = 32
program_size p2tr = 32
program_size unknown_segwit = 0

split_one : (n : ℕ) (xs : List ℕ) → length xs ≡ n + 1 → xs ≡ take n xs ++ (byte_at xs n ∷ [])
split_one n [] h = absurd (omega arith)
split_one zero (x ∷ []) h = refl
split_one zero (x ∷ y ∷ xs) h = absurd (omega arith)
split_one (suc n) (x ∷ xs) h = ap (λ t. x ∷ t) (split_one n xs (omega arith))

split_two :
    (n : ℕ) (xs : List ℕ)
    → length xs ≡ n + 2
    → xs ≡ take n xs ++ (byte_at xs n ∷ byte_at xs (n + 1) ∷ [])
split_two n [] h = absurd (omega arith)
split_two zero (x ∷ []) h = absurd (omega arith)
split_two zero (x ∷ y ∷ []) h = refl
split_two zero (x ∷ y ∷ z ∷ xs) h = absurd (omega arith)
split_two (suc n) (x ∷ xs) h =
    let q : suc n + 1 ≡ suc (n + 1) = omega arith in
    rw q (ap (λ t. x ∷ t) (split_two n xs (omega arith)))

byte_at-append :
    (xs ys : List ℕ) (n i : ℕ) → length xs ≡ n → byte_at (xs ++ ys) (n + i) ≡ byte_at ys i
byte_at-append [] ys zero i e = ap (byte_at ys) (let q : 0 + i ≡ i = omega arith in q)
byte_at-append [] ys (suc n) i e = absurd (omega arith)
byte_at-append (x ∷ xs) ys zero i e = absurd (omega arith)
byte_at-append (x ∷ xs) ys (suc n) i e =
    let q : suc n + i ≡ suc (n + i) = omega arith in rw q (byte_at-append xs ys n i (omega arith))

abbrev pub HasTemplate : ScriptType → Type 0
HasTemplate t = 0 < program_size t

template-type :
    (t : ScriptType) (p : List ℕ)
    → HasTemplate t
    → length p ≡ program_size t
    → get_script_type (template t p) ≡ some t
unfolding get_script_type
template-type p2pkh p k h = ground (
  arith,
  length-append p (0x88 ∷ 0xac ∷ []),
  byte_at-append p (0x88 ∷ 0xac ∷ []) 20 0 h,
  byte_at-append p (0x88 ∷ 0xac ∷ []) 20 1 h,
)
template-type p2sh p k h =
    ground (arith, length-append p (0x87 ∷ []), byte_at-append p (0x87 ∷ []) 20 0 h)
template-type p2wpkh p k h = ground arith
template-type p2wsh p k h = ground arith
template-type p2tr p k h = ground arith
template-type unknown_segwit p k h = absurd (omega arith)

-- What the tests say of a script that passes them.
p2pkh-tests :
    (s : List ℕ)
    → get_script_type s ≡ some p2pkh
    → (length s ≡ 25)
      × (byte_at s 0 ≡ 0x76)
      × (byte_at s 1 ≡ 0xa9)
      × (byte_at s 2 ≡ 0x14)
      × (byte_at s 23 ≡ 0x88)
      × (byte_at s 24 ≡ 0xac)
unfolding get_script_type
p2pkh-tests s e = ground arith

p2sh-tests :
    (s : List ℕ)
    → get_script_type s ≡ some p2sh
    → (length s ≡ 23) × (byte_at s 0 ≡ 0xa9) × (byte_at s 1 ≡ 0x14) × (byte_at s 22 ≡ 0x87)
unfolding get_script_type
p2sh-tests s e = ground arith

abbrev Witness : List ℕ → ℕ → ℕ → ℕ → Type 0
Witness s n version size = (length s ≡ n) × (byte_at s 0 ≡ version) × (byte_at s 1 ≡ size)

p2wpkh-tests : (s : List ℕ) → get_script_type s ≡ some p2wpkh → Witness s 22 0x00 0x14
unfolding get_script_type
p2wpkh-tests s e = ground arith

p2wsh-tests : (s : List ℕ) → get_script_type s ≡ some p2wsh → Witness s 34 0x00 0x20
unfolding get_script_type
p2wsh-tests s e = ground arith

p2tr-tests : (s : List ℕ) → get_script_type s ≡ some p2tr → Witness s 34 0x51 0x20
unfolding get_script_type
p2tr-tests s e = ground arith

Witness-program :
    (s : List ℕ) (n version size : ℕ)
    → Witness s (n + 2) version size
    → (p : List ℕ) × (length p ≡ n) × (s ≡ version ∷ size ∷ p)
Witness-program [] n v z w = absurd (omega arith)
Witness-program (a ∷ []) n v z w = absurd (omega arith)
Witness-program (a ∷ b ∷ p) n v z (l, x, y) = (p, omega arith, ap₂ (λ c d. c ∷ d ∷ p) x y)

p2sh-program :
    (s : List ℕ)
    → get_script_type s ≡ some p2sh
    → (p : List ℕ) × (length p ≡ 20) × (s ≡ template p2sh p)
p2sh-program [] e = absurd (omega (arith, p2sh-tests [] e))
p2sh-program (a ∷ []) e = absurd (omega (arith, p2sh-tests (a ∷ []) e))
p2sh-program (a ∷ b ∷ s) e =
    let (l, x, y, z) = p2sh-tests (a ∷ b ∷ s) e in
    (
      take 20 s,
      omega (arith, length-take 20 s),
      ap₂ (λ c d. c ∷ d ∷ s) x y
          ∙ ap (λ t. 0xa9 ∷ 0x14 ∷ t)
              (split_one 20 s (omega arith) ∙ ap (λ c. take 20 s ++ (c ∷ [])) z),
    )

p2pkh-program :
    (s : List ℕ)
    → get_script_type s ≡ some p2pkh
    → (p : List ℕ) × (length p ≡ 20) × (s ≡ template p2pkh p)
p2pkh-program [] e = absurd (omega (arith, p2pkh-tests [] e))
p2pkh-program (a ∷ []) e = absurd (omega (arith, p2pkh-tests (a ∷ []) e))
p2pkh-program (a ∷ b ∷ []) e = absurd (omega (arith, p2pkh-tests (a ∷ b ∷ []) e))
p2pkh-program (a ∷ b ∷ c ∷ s) e =
    let (l, x, y, z, v, w) = p2pkh-tests (a ∷ b ∷ c ∷ s) e in
    (
      take 20 s,
      omega (arith, length-take 20 s),
      ap₂ (λ i j. i ∷ j ∷ c ∷ s) x y
          ∙ ap (λ i. 0x76 ∷ 0xa9 ∷ i ∷ s) z
          ∙ ap (λ t. 0x76 ∷ 0xa9 ∷ 0x14 ∷ t)
              (split_two 20 s (omega arith) ∙ ap₂ (λ i j. take 20 s ++ (i ∷ j ∷ [])) v w),
    )

type-template :
    (s : List ℕ) (t : ScriptType)
    → HasTemplate t
    → get_script_type s ≡ some t
    → (p : List ℕ) × (length p ≡ program_size t) × (s ≡ template t p)
type-template s p2pkh k e = p2pkh-program s e
type-template s p2sh k e = p2sh-program s e
type-template s p2wpkh k e = Witness-program s 20 0x00 0x14 (p2wpkh-tests s e)
type-template s p2wsh k e = Witness-program s 32 0x00 0x20 (p2wsh-tests s e)
type-template s p2tr k e = Witness-program s 32 0x51 0x20 (p2tr-tests s e)
type-template s unknown_segwit k e = absurd (omega arith)

-- `get_script_type` recognises a kind with a template exactly in the scripts that put a hash or key of
-- the kind's size into the template.
pub script_type_iff :
    (s : List ℕ) (t : ScriptType)
    → HasTemplate t
    → (get_script_type s ≡ some t)
      ↔ ((p : List ℕ) × (length p ≡ program_size t) × (s ≡ template t p))
script_type_iff s t k =
    (type-template s t k, λ (p, l, e). ap get_script_type e ∙ template-type t p k l)

-- A number of more than 16 that needs `k + 1` bytes with a sign bit, at most five, takes one byte more
-- than that.
push_script_size_lem :
    (n k : ℕ)
    → 16 < n
    → k ≤ 4
    → (k ≡ 0) ⊎ (2 ^ (8 * k - 1) ≤ n)
    → n < 2 ^ (8 * k + 7)
    → get_push_script_size n ≡ k + 2
unfolding get_push_script_size
push_script_size_lem n zero h m l u = ground arith
push_script_size_lem n (suc zero) h m l u = ground arith
push_script_size_lem n (suc (suc zero)) h m l u = ground arith
push_script_size_lem n (suc (suc (suc zero))) h m l u = ground arith
push_script_size_lem n (suc (suc (suc (suc zero)))) h m l u = ground arith
push_script_size_lem n (suc (suc (suc (suc (suc k))))) h m l u = absurd (omega arith)
