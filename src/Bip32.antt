-- ===== src/Bip32.antt =====
-- src/common/bip32.c, `buffer_read_bip32_path` of src/common/buffer.c and
-- src/swap/bip32_path.c: derivation paths.
pub mod Serialized
pub mod Reading
pub mod Standard
mod Tests
use ledger_babylon_app.Common.{
  ℕ, zero, suc, ◌+◌, ◌*◌, ◌^◌, List, [], ◌∷◌, Bool, true, false, ◌||◌, ◌&&◌, not, Option, none,
  some, if◌then◌else◌, leb, ltb, ◌==◌, sub_size, get_or, drop, length, bit_xor,
}
use ledger_babylon_app.Bytes.{byte_at, read_u32_be}
use ledger_babylon_app.Buffer.{Buffer, buffer_get_cur, buffer_seek_cur}

abbrev pub max_bip32_path_steps : ℕ
max_bip32_path_steps = 8

abbrev pub hardened : ℕ
hardened = 2 ^ 31

-- The loop with `n` words to go; `none` is `false`.
unfoldable pub read_words : List ℕ → ℕ → ℕ → ℕ → Option (List ℕ)
read_words input in_len zero offset = some []
read_words input in_len (suc n) offset =
    if ltb in_len offset then none else elim (read_words input in_len n (offset + 4)) [
      | none ↦ none
      | some rest ↦ some (read_u32_be input offset ∷ rest)
    ]

-- `input` is the memory from `in` on, of which `in_len` bytes belong to the input.
unfoldable pub bip32_path_read : List ℕ → ℕ → ℕ → Option (List ℕ)
bip32_path_read input in_len out_len =
    if ltb max_bip32_path_steps out_len then none else read_words input in_len out_len 0

unfoldable pub buffer_read_bip32_path : Buffer → ℕ → Option (List ℕ) × Buffer
buffer_read_bip32_path b out_len =
    elim (bip32_path_read (buffer_get_cur b) (sub_size b.size b.offset) out_len) [
      | none ↦ (none, b)
      | some path ↦ (some path, (buffer_seek_cur b (4 * out_len)).1)
    ]

-- The loop over the expected coin types.
unfoldable pub coin_type_listed : ℕ → List ℕ → Bool
coin_type_listed coin_type [] = false
coin_type_listed coin_type (c ∷ expected) =
    coin_type == bit_xor c hardened || coin_type_listed coin_type expected

unfoldable pub is_pubkey_path_standard : List ℕ → ℕ → List ℕ → Bool
is_pubkey_path_standard bip32_path expected_purpose expected_coin_types =
    let n = length bip32_path in
    let purpose = get_or bip32_path 0 0 in
    let coin_type = get_or bip32_path 1 0 in
    let account_number = get_or bip32_path 2 0 in
    if ltb n 2 || ltb 3 n
    then false
    else if not (purpose == bit_xor expected_purpose hardened)
    then false
    else if ltb coin_type hardened
    then false
    else if ltb 0 (length expected_coin_types)
        && not (coin_type_listed coin_type expected_coin_types)
    then false
    else if n == 2
    then true
    else if ltb 100 (bit_xor account_number hardened)
    then false
    else true

-- `MAX_BIP32_PATH`
abbrev pub max_bip32_path : ℕ
max_bip32_path = 10

-- The words of the path, `n` of them from `offset` on.
unfoldable pub path_words : List ℕ → ℕ → ℕ → List ℕ
path_words serialized_path zero offset = []
path_words serialized_path (suc n) offset =
    read_u32_be serialized_path offset ∷ path_words serialized_path n (offset + 4)

-- `none` is `false`; the length of the path is that of the list.
unfoldable pub parse_serialized_path : List ℕ → ℕ → Option (List ℕ)
parse_serialized_path serialized_path serialized_path_length =
    let n = byte_at serialized_path 0 in
    if ltb serialized_path_length 1
      || (ltb max_bip32_path n || ltb serialized_path_length (n * 4 + 1))
    then none
    else some (path_words serialized_path n 1)
