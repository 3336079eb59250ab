-- ===== src/Wallet.antt =====
-- The serialized header of a wallet policy and the lexical level of the texts of policies and keys, in
-- src/common/wallet.c. A character is its code. A result `none` is the -1 of the code; the buffer stays
-- where the call has left it.
pub mod Decimal
pub mod Steps
pub mod KeyInfo
pub mod Id
mod Tests
use ledger_babylon_app.Common.{
  ℕ, zero, suc, ◌+◌, ◌-◌, ◌*◌, ◌%◌, ◌^◌, List, [], ◌∷◌, Bool, true, false, ◌||◌, ◌&&◌, not, Option,
  none, some, if◌then◌else◌, leb, ltb, ◌==◌, length, add_size,
}
use ledger_babylon_app.Buffer.{
  Buffer, buffer_can_read, buffer_seek_cur, buffer_peek, buffer_peek_n, buffer_read_u8,
  buffer_read_bytes, buffer_read_varint,
}

abbrev pub is_digit : ℕ → Bool
is_digit c = leb 0x30 c && leb c 0x39

abbrev pub is_alpha : ℕ → Bool
is_alpha c = (leb 0x61 c && leb c 0x7a) || (leb 0x41 c && leb c 0x5a)

abbrev pub is_alphanumeric : ℕ → Bool
is_alphanumeric c = is_alpha c || is_digit c

abbrev pub is_lowercase_hex : ℕ → Bool
is_lowercase_hex c = is_digit c || (leb 0x61 c && leb c 0x66)

abbrev pub lowercase_hex_to_int : ℕ → ℕ
lowercase_hex_to_int c = if is_digit c then c - 0x30 else c - 0x61 + 10

unfoldable pub consume_character : Buffer → ℕ → Bool × Buffer
consume_character in_buf expected = elim (buffer_peek in_buf) [
  | none ↦ (false, in_buf)
  | some c ↦ if c == expected then (true, (buffer_seek_cur in_buf 1).1) else (false, in_buf)
]

-- The loop of `consume_characters` from the position `i`.
unfoldable pub characters_match : Buffer → ℕ → List ℕ → Bool
characters_match in_buf i [] = true
characters_match in_buf i (e ∷ expected) =
    let rest = characters_match in_buf (suc i) expected in
    elim (buffer_peek_n in_buf i) [ none ↦ false | some c ↦ if c == e then rest else false ]

unfoldable pub consume_characters : Buffer → List ℕ → Bool × Buffer
unfolding characters_match
consume_characters in_buf expected =
    if characters_match in_buf 0 expected
    then (true, (buffer_seek_cur in_buf (length expected)).1)
    else (false, in_buf)

-- `read_token`, with `out_len` characters to go at most.
unfoldable pub read_token : ℕ → Buffer → List ℕ × Buffer
read_token zero buffer = ([], buffer)
read_token (suc out_len) buffer =
    let (word, end) = read_token out_len (buffer_seek_cur buffer 1).1 in
    elim (buffer_peek buffer) [
      | none ↦ ([], buffer)
      | some c ↦ if is_alphanumeric c || c == 0x5f then (c ∷ word, end) else ([], buffer)
    ]

-- What `parse_unsigned_decimal` does at the end of the digits.
abbrev pub end_of_decimal : ℕ → ℕ → Buffer → Option ℕ × Buffer
end_of_decimal digits_read result buffer = (if digits_read == 0 then none else some result, buffer)

-- The loop of `parse_unsigned_decimal` on fuel; `result` is a size_t.
unfoldable pub decimal_loop : ℕ → ℕ → ℕ → Buffer → Option ℕ × Buffer
decimal_loop zero digits_read result buffer = (none, buffer)
decimal_loop (suc fuel) digits_read result buffer = elim (buffer_peek buffer) [
  | none ↦ end_of_decimal digits_read result buffer
  | some c ↦
      let next = (10 * result + (c - 0x30)) % 2 ^ 32 in
      let rest = decimal_loop fuel (suc digits_read) next (buffer_seek_cur buffer 1).1 in
      if not (is_digit c)
      then end_of_decimal digits_read result buffer
      else if suc digits_read == 2 && result == 0
      then (none, buffer)
      else if ltb next result
      then (none, buffer)
      else rest
]

-- Each turn reads a character, so that one turn for each and a last one are enough.
unfoldable pub parse_unsigned_decimal : Buffer → Option ℕ × Buffer
unfolding decimal_loop
parse_unsigned_decimal buffer = decimal_loop (suc (length buffer.ptr)) 0 0 buffer

abbrev pub bip32_first_hardened_child : ℕ
bip32_first_hardened_child = 0x80000000

-- What `buffer_read_derivation_step` does with the number that it has read.
unfoldable pub finish_step : Option ℕ × Buffer → Option ℕ × Buffer
finish_step (none, after) = (none, after)
finish_step (some der_step, after) =
    let (hardened, end) = consume_character after 0x27 in
    if leb bip32_first_hardened_child der_step
    then (none, after)
    else (some (if hardened then der_step + bip32_first_hardened_child else der_step), end)

-- The step with its bit 31 set where the mark ' follows it.
unfoldable pub buffer_read_derivation_step : Buffer → Option ℕ × Buffer
unfolding finish_step
buffer_read_derivation_step buffer = finish_step (parse_unsigned_decimal buffer)

-- The loop of `buffer_read_hex_hash` with `n` bytes to go.
unfoldable pub hex_loop : ℕ → Buffer → Option (List ℕ) × Buffer
hex_loop zero buffer = (some [], buffer)
hex_loop (suc n) buffer =
    let (done1, c1, b1) = buffer_read_u8 buffer in
    let (done2, c2, b2) = buffer_read_u8 b1 in
    let (rest, end) = hex_loop n b2 in
    if is_lowercase_hex c1 && is_lowercase_hex c2
    then elim rest [
      | none ↦ (none, end)
      | some out ↦
          (some ((16 * lowercase_hex_to_int c1 + lowercase_hex_to_int c2) % 256 ∷ out), end)
    ]
    else (none, b2)

unfoldable pub buffer_read_hex_hash : Buffer → ℕ → Option (List ℕ) × Buffer
unfolding hex_loop
buffer_read_hex_hash buffer n =
    if buffer_can_read buffer (2 * n) then hex_loop n buffer else (none, buffer)

-- `policy_map_wallet_header_t`. The field `descriptor_template` is the text in version 1, and its hash
-- in version 2.
pub record WalletHeader : Type 0 where
  pub version : ℕ
  pub name_len : ℕ
  pub descriptor_template_len : ℕ
  pub name : List ℕ
  pub descriptor_template : List ℕ
  pub n_keys : ℕ
  pub keys_info_merkle_root : List ℕ

abbrev pub max_wallet_name_length : ℕ
max_wallet_name_length = 64

abbrev pub max_descriptor_template_length_v1 : ℕ
max_descriptor_template_length_v1 = 40

abbrev pub max_descriptor_template_length_v2 : ℕ
max_descriptor_template_length_v2 = 512

-- The text or the hash of the descriptor template.
unfoldable pub read_template : ℕ → ℕ → Buffer → Bool × List ℕ × Buffer
read_template version descriptor_template_len buffer =
    if version == 1
    then if ltb max_descriptor_template_length_v1 descriptor_template_len
      then (false, [], buffer)
      else buffer_read_bytes buffer (descriptor_template_len % 2 ^ 16)
    else if ltb max_descriptor_template_length_v2 descriptor_template_len
    then (false, [], buffer)
    else buffer_read_bytes buffer 32

unfoldable pub read_wallet_policy_header : Buffer → Option WalletHeader × Buffer
unfolding read_template
read_wallet_policy_header b =
    let (done0, version, b0) = buffer_read_u8 b in
    let (done1, name_len, b1) = buffer_read_u8 b0 in
    let (done2, name, b2) = buffer_read_bytes b1 name_len in
    let (done3, template_len, b3) = buffer_read_varint b2 in
    let (done4, template, b4) = read_template version template_len b3 in
    let (done5, n_keys, b5) = buffer_read_varint b4 in
    let (done6, root, b6) = buffer_read_bytes b5 32 in
    if not done0 || not (version == 1 || version == 2)
    then (none, b0)
    else if not done1 || ltb max_wallet_name_length name_len
    then (none, b1)
    else if not done2
    then (none, b2)
    else if not done3
    then (none, b3)
    else if not done4
    then (none, b4)
    else if not done5 || ltb 252 n_keys
    then (none, b5)
    else if not done6
    then (none, b6)
    else (
      some (record {
        version = version;
        name_len = name_len;
        descriptor_template_len = template_len % 2 ^ 16;
        name = name;
        descriptor_template = template;
        n_keys = n_keys;
        keys_info_merkle_root = root;
      }),
      b6,
    )
