-- ===== src/Bip32/Serialized.antt =====
-- The paths of src/swap/bip32_path.c, parsed back from their bytes.
use ledger_babylon_app.Common.{
  ℕ, zero, suc, ◌+◌, ◌*◌, ◌≡◌, refl, ap₂, ap, ◌∙◌, arith, List, [], ◌∷◌, none, some, if◌then◌else◌,
  leb, ◌&&◌, length, All, IsU32,
}
use ledger_babylon_app.Bytes.{byte_of}
use ledger_babylon_app.Bytes.RoundTrip.{read_u32_be_sum, read_u32_be-suc}
use ledger_babylon_app.Bip32.{path_words, parse_serialized_path}

-- The words in big endian, and what follows them.
abbrev pub serialize : List ℕ → List ℕ → List ℕ
serialize [] rest = rest
serialize (w ∷ path) rest =
    byte_of w 24 ∷ (byte_of w 16 ∷ (byte_of w 8 ∷ (byte_of w 0 ∷ serialize path rest)))

path_words-suc :
    (x : ℕ) (ptr : List ℕ) (n o : ℕ) → path_words (x ∷ ptr) n (suc o) ≡ path_words ptr n o
unfolding path_words
path_words-suc x ptr zero o = refl
path_words-suc x ptr (suc n) o =
    let e : suc o + 4 ≡ suc (o + 4) = omega arith in
    ap₂ (λ w ws. w ∷ ws) (read_u32_be-suc x ptr o)
      (ap (path_words (x ∷ ptr) n) e ∙ path_words-suc x ptr n (o + 4))

path_words-serialize :
    (path rest : List ℕ) → All IsU32 path → path_words (serialize path rest) (length path) 0 ≡ path
unfolding path_words
path_words-serialize [] rest h = refl
path_words-serialize (w ∷ path) rest h =
    let a = byte_of w 24 in
    let b = byte_of w 16 in
    let c = byte_of w 8 in
    let d = byte_of w 0 in
    let r = serialize path rest in
    let n = length path in
    ap₂ (λ x xs. x ∷ xs) (read_u32_be_sum a b c d r (omega arith) ∙ omega arith)
      (path_words-suc a (b ∷ (c ∷ (d ∷ r))) n 3
        ∙ path_words-suc b (c ∷ (d ∷ r)) n 2
        ∙ path_words-suc c (d ∷ r) n 1
        ∙ path_words-suc d r n 0
        ∙ path_words-serialize path rest h.1)

-- The number of steps of a path, its words in big endian, and any bytes after them, with a length that
-- the caller gives: `parse_serialized_path` returns exactly the path if it has at most 10 steps and
-- the given length counts all of its bytes; else it fails.
pub parse_serialized_path-serialize :
    (path rest : List ℕ) (len : ℕ)
    → All IsU32 path
    → parse_serialized_path (length path ∷ serialize path rest) len
      ≡ (if leb (length path) 10 && leb (1 + 4 * length path) len then some path else none)
unfolding parse_serialized_path
parse_serialized_path-serialize path rest len h =
    let words =
      path_words-suc (length path) (serialize path rest) (length path) 0
      ∙ path_words-serialize path rest h in
    ground (arith, words)
