-- ===== src/Wallet/Tests.antt =====
-- Texts of keys and serialized headers on which src/common/wallet.c runs.
use ledger_babylon_app.Common.{
  zero, suc, take, true, ℕ, ◌+◌, ◌-◌, ◌^◌, ◌<◌, ◌≡◌, refl, arith, List, [], ◌∷◌, ◌++◌, none, some,
  length, replicate, if◌then◌else◌, leb,
}
use ledger_babylon_app.Buffer.{
  Buffer, buffer_create, buffer_can_read, buffer_seek_cur, buffer_peek, buffer_peek_n,
  buffer_read_u8, buffer_read_bytes, buffer_read_varint,
}
use ledger_babylon_app.Buffer.Bounds.{IsValid}
use ledger_babylon_app.Buffer.Contents.{contents}
use ledger_babylon_app.Bytes.{read_u16_le}
use ledger_babylon_app.Varint.{varint_read}
use ledger_babylon_app.Wallet.{
  consume_character, consume_characters, read_token, parse_unsigned_decimal,
  buffer_read_derivation_step, buffer_read_hex_hash, read_wallet_policy_header,
}
use ledger_babylon_app.Varint.{varint_write}
use ledger_babylon_app.Merkle.Tests.{toy_sha}
use ledger_babylon_app.Wallet.KeyInfo.{read_key_origin, read_wildcard, parse_policy_map_key_info}
use ledger_babylon_app.Wallet.Id.{get_policy_wallet_id}
use ledger_babylon_app.Wallet.Decimal.{value}
use ledger_babylon_app.Wallet.Steps.{is_marked, unmarked, derivation_step_lem}

abbrev text : List ℕ → Buffer
text codes = buffer_create codes (length codes)

-- 44'/
abbrev step_text : List ℕ
step_text = 0x34 ∷ 0x34 ∷ 0x27 ∷ 0x2f ∷ []

step_text-IsValid : IsValid (text step_text)
step_text-IsValid = omega arith

forty_four : value 0 (4 ∷ 4 ∷ []) < 2 ^ 32
unfolding value
forty_four = omega arith

derivation_step_lem_example :
    let (out, end) = buffer_read_derivation_step (text step_text) in
    let rest : List ℕ = 0x27 ∷ 0x2f ∷ [] in
    let v = value 0 (4 ∷ 4 ∷ []) in
    let hardened = if is_marked rest then v + 2 ^ 31 else v in
    (out ≡ (if leb (2 ^ 31) v then none else some hardened))
    × (contents end ≡ (if leb (2 ^ 31) v then rest else unmarked rest))
derivation_step_lem_example =
    derivation_step_lem (4 ∷ 4 ∷ []) (text step_text) (0x27 ∷ 0x2f ∷ []) step_text-IsValid refl refl
      (omega arith) (λ h. omega arith) forty_four

hardened_44 : (buffer_read_derivation_step (text step_text)).0 ≡ some (44 + 0x80000000)
unfolding buffer_read_derivation_step parse_unsigned_decimal consume_character buffer_peek
    buffer_seek_cur
hardened_44 = refl

-- 5000000000 wraps to a number that is not below the one before the last digit.
wrapped : (parse_unsigned_decimal (text (0x35 ∷ replicate 9 0x30))).0 ≡ some (5000000000 - 2 ^ 32)
unfolding parse_unsigned_decimal buffer_peek buffer_seek_cur
wrapped = refl

-- 007
leading_zero : (parse_unsigned_decimal (text (0x30 ∷ 0x30 ∷ 0x37 ∷ []))).0 ≡ none
unfolding parse_unsigned_decimal buffer_peek buffer_seek_cur
leading_zero = refl

no_digit : (parse_unsigned_decimal (text (0x2f ∷ []))).0 ≡ none
unfolding parse_unsigned_decimal buffer_peek buffer_seek_cur
no_digit = refl

-- pk_k(
token :
    (read_token 13 (text (0x70 ∷ 0x6b ∷ 0x5f ∷ 0x6b ∷ 0x28 ∷ []))).0
    ≡ 0x70 ∷ 0x6b ∷ 0x5f ∷ 0x6b ∷ []
unfolding read_token buffer_peek buffer_seek_cur
token = refl

-- /** is there, and is consumed as a whole or not at all.
wildcard :
    (consume_characters (text (0x2f ∷ 0x2a ∷ 0x2a ∷ [])) (0x2f ∷ 0x2a ∷ 0x2a ∷ [])).1.offset ≡ 3
unfolding consume_characters buffer_peek_n buffer_seek_cur
wildcard = refl

no_wildcard :
    (consume_characters (text (0x2f ∷ 0x2a ∷ 0x29 ∷ [])) (0x2f ∷ 0x2a ∷ 0x2a ∷ [])).1.offset ≡ 0
unfolding consume_characters buffer_peek_n buffer_seek_cur
no_wildcard = refl

-- 0f and a9, then 0G.
hash_bytes :
    (buffer_read_hex_hash (text (0x30 ∷ 0x66 ∷ 0x61 ∷ 0x39 ∷ [])) 2).0 ≡ some (0x0f ∷ 0xa9 ∷ [])
unfolding buffer_read_hex_hash buffer_can_read buffer_read_u8
hash_bytes = refl

no_hash : (buffer_read_hex_hash (text (0x30 ∷ 0x47 ∷ [])) 1).0 ≡ none
unfolding buffer_read_hex_hash buffer_can_read buffer_read_u8
no_hash = refl

-- Version 2, the name "ab", a template of 300 bytes, three keys.
abbrev header_bytes : List ℕ
header_bytes = 2 ∷ 2 ∷ 0x61 ∷ 0x62 ∷ 0xfd ∷ 0x2c ∷ 0x01 ∷ (replicate 32 7 ++ (3 ∷ replicate 32 9))

header_read :
    (read_wallet_policy_header (text header_bytes)).0
    ≡ some (record {
      version = 2;
      name_len = 2;
      descriptor_template_len = 300;
      name = 0x61 ∷ 0x62 ∷ [];
      descriptor_template = replicate 32 7;
      n_keys = 3;
      keys_info_merkle_root = replicate 32 9;
    })
unfolding read_wallet_policy_header buffer_read_u8 buffer_read_bytes buffer_read_varint varint_read
    read_u16_le
header_read = refl

-- Version 3 is refused after its byte.
header_refused : (read_wallet_policy_header (text (3 ∷ []))).0 ≡ none
unfolding read_wallet_policy_header buffer_read_u8 buffer_read_bytes buffer_read_varint varint_read
    read_u16_le
header_refused = refl

-- 00000000/1/1/1/1/1/1/1/1/1]: nine steps are read into an array of eight, a tenth is refused.
abbrev steps_text : ℕ → List ℕ
steps_text zero = 0x5d ∷ []
steps_text (suc n) = 0x2f ∷ 0x31 ∷ steps_text n

abbrev origin_text : ℕ → List ℕ
origin_text n = replicate 8 0x30 ++ steps_text n

nine_steps : (read_key_origin (text (origin_text 9))).0 ≡ some (replicate 4 0, replicate 9 1)
unfolding read_key_origin buffer_read_derivation_step parse_unsigned_decimal consume_character
    buffer_peek buffer_seek_cur buffer_can_read buffer_read_bytes
nine_steps = refl

ten_steps : (read_key_origin (text (origin_text 10))).0 ≡ none
unfolding read_key_origin buffer_read_derivation_step parse_unsigned_decimal consume_character
    buffer_peek buffer_seek_cur buffer_can_read buffer_read_bytes
ten_steps = refl

-- The suffix /** belongs to version 1 alone.
suffix_v1 : (read_wildcard 1 (text (0x2f ∷ 0x2a ∷ 0x2a ∷ []))).0 ≡ some true
unfolding read_wildcard buffer_can_read buffer_read_bytes
suffix_v1 = refl

suffix_v2 : (read_wildcard 2 (text (0x2f ∷ 0x2a ∷ 0x2a ∷ []))).0 ≡ none
unfolding read_wildcard buffer_can_read buffer_read_bytes
suffix_v2 = refl

-- A text that is too short for an extended key.
no_key : (parse_policy_map_key_info toy_sha [] (text (0x78 ∷ [])) 2).0 ≡ none
unfolding parse_policy_map_key_info consume_character buffer_peek buffer_seek_cur buffer_can_read
    buffer_read_bytes
no_key = refl

-- The toy hash keeps the first bytes: those of the header.
id_of_header :
    take 6 (
      get_policy_wallet_id toy_sha (record {
        version = 1;
        name_len = 2;
        descriptor_template_len = 1;
        name = 0x61 ∷ 0x62 ∷ 0x00 ∷ [];
        descriptor_template = 0x2a ∷ [];
        n_keys = 3;
        keys_info_merkle_root = replicate 32 9;
      }))
    ≡ 1 ∷ 2 ∷ 0x61 ∷ 0x62 ∷ 1 ∷ 0x2a ∷ []
unfolding get_policy_wallet_id varint_write
id_of_header = refl
