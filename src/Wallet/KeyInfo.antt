-- ===== src/Wallet/KeyInfo.antt =====
-- `parse_policy_map_key_info` of src/common/wallet.c: the text of a key, with its origin if it has one.
use ledger_babylon_app.Common.{
  ℕ, zero, suc, ◌+◌, ◌*◌, ◌%◌, List, [], ◌∷◌, ◌++◌, Bool, true, false, ◌||◌, ◌&&◌, not, Option,
  none, some, if◌then◌else◌, ltb, ◌==◌, length, take, drop, bytes_eq,
}
use ledger_babylon_app.Buffer.{
  Buffer, buffer_can_read, buffer_seek_cur, buffer_peek, buffer_read_bytes,
}
use ledger_babylon_app.Bytes.{byte_at}
use ledger_babylon_app.Bip32.{max_bip32_path_steps}
use ledger_babylon_app.Merkle.{Sha256}
use ledger_babylon_app.Base58.{base58_decode}
use ledger_babylon_app.Wallet.{
  consume_character, is_alphanumeric, is_lowercase_hex, lowercase_hex_to_int,
  buffer_read_derivation_step,
}

-- `policy_map_key_info_t`; the steps are the entries of the array that have been written.
pub record KeyInfo : Type 0 where
  pub master_key_derivation : List ℕ
  pub master_key_fingerprint : List ℕ
  pub has_key_origin : Bool
  pub has_wildcard : Bool
  pub ext_pubkey : List ℕ

-- The loop over the bytes of the fingerprint, with `n` to go.
unfoldable pub read_fingerprint : ℕ → Buffer → Option (List ℕ) × Buffer
read_fingerprint zero buffer = (some [], buffer)
read_fingerprint (suc n) buffer =
    let (done, num, after) = buffer_read_bytes buffer 2 in
    let (rest, end) = read_fingerprint n after in
    let high = byte_at num 0 in
    let low = byte_at num 1 in
    if is_lowercase_hex high && is_lowercase_hex low
    then elim rest [
      | none ↦ (none, end)
      | some bytes ↦
          (some ((16 * lowercase_hex_to_int high + lowercase_hex_to_int low) % 256 ∷ bytes), end)
    ]
    else (none, after)

-- The loop over the derivation steps on fuel: `read` is `master_key_derivation_len`.
unfoldable pub read_steps : ℕ → ℕ → Buffer → Option (List ℕ) × Buffer
read_steps zero read buffer = (none, buffer)
read_steps (suc fuel) read buffer =
    let (more, after) = consume_character buffer 0x2f in
    let (step, next) = buffer_read_derivation_step after in
    let (rest, end) = read_steps fuel (suc read) next in
    if not more
    then (some [], buffer)
    else if ltb max_bip32_path_steps read
    then (none, after)
    else elim step [
      | none ↦ (none, next)
      | some s ↦ elim rest [ none ↦ (none, end) | some steps ↦ (some (s ∷ steps), end) ]
    ]

-- The key origin behind its [: the fingerprint and the steps. The length of the array is a fuel that
-- lasts, since each turn reads a character.
unfoldable pub read_key_origin : Buffer → Option (List ℕ × List ℕ) × Buffer
unfolding read_fingerprint read_steps
read_key_origin buffer =
    if not (buffer_can_read buffer 9)
    then (none, buffer)
    else let (fingerprint, b0) = read_fingerprint 4 buffer in
      elim fingerprint [
        | none ↦ (none, b0)
        | some bytes ↦
            let (steps, b1) = read_steps (suc (length buffer.ptr)) 0 b0 in
            elim steps [
              | none ↦ (none, b1)
              | some derivation ↦
                  let (closed, b2) = consume_character b1 0x5d in
                  if closed then (some (bytes, derivation), b2) else (none, b2)
            ]
      ]

-- Up to `n` letters and digits.
unfoldable pub read_alphanumeric : ℕ → Buffer → List ℕ × Buffer
read_alphanumeric zero buffer = ([], buffer)
read_alphanumeric (suc n) buffer =
    let (word, end) = read_alphanumeric n (buffer_seek_cur buffer 1).1 in
    elim (buffer_peek buffer) [
      | none ↦ ([], buffer)
      | some c ↦ if is_alphanumeric c then (c ∷ word, end) else ([], buffer)
    ]

abbrev pub max_serialized_pubkey_length : ℕ
max_serialized_pubkey_length = 113

-- The bytes of a `serialized_extended_pubkey_t`, and those with the checksum behind it.
abbrev pub ext_pubkey_size : ℕ
ext_pubkey_size = 78

-- What follows the key: nothing, or in version 1 the suffix /** and nothing more.
unfoldable pub read_wildcard : ℕ → Buffer → Option Bool × Buffer
read_wildcard version buffer =
    let (done, wildcard, end) = buffer_read_bytes buffer 3 in
    if not (buffer_can_read buffer 1)
    then ((if version == 1 then none else some false), buffer)
    else if version == 2
    then (none, buffer)
    else if not done
        || buffer_can_read end 1
        || not
            (byte_at wildcard 0 == 0x2f && byte_at wildcard 1 == 0x2a && byte_at wildcard 2 == 0x2a)
    then (none, end)
    else (some true, end)

-- The origin, if the text starts with [.
unfoldable pub read_optional_origin : Buffer → Option (Bool × List ℕ × List ℕ) × Buffer
unfolding read_key_origin
read_optional_origin buffer =
    let (opened, b0) = consume_character buffer 0x5b in
    let (origin, b1) = read_key_origin b0 in
    if not opened then (some (false, [], []), buffer) else elim origin [
      | none ↦ (none, b1)
      | some (fingerprint, steps) ↦ (some (true, fingerprint, steps), b1)
    ]

module _ (sha : Sha256) where
  -- `crypto_get_checksum`
  unfoldable pub crypto_get_checksum : List ℕ → List ℕ
  crypto_get_checksum bytes = take 4 (sha.sha256 (sha.sha256 bytes))

  -- The extended key of a text. `held` is what the variable on the stack held: the decoded bytes may
  -- be fewer than it has.
  unfoldable pub decode_ext_pubkey : List ℕ → List ℕ → Option (List ℕ)
  unfolding crypto_get_checksum
  decode_ext_pubkey held text =
      if ltb (length text) 111 || ltb 112 (length text)
      then none
      else elim (base58_decode text (ext_pubkey_size + 4)) [
        | none ↦ none
        | some decoded ↦
            let all = decoded ++ drop (length decoded) held in
            let ext_pubkey = take ext_pubkey_size all in
            if bytes_eq (take 4 (drop ext_pubkey_size all)) (crypto_get_checksum ext_pubkey)
            then some ext_pubkey
            else none
      ]

  unfoldable pub parse_policy_map_key_info : List ℕ → Buffer → ℕ → Option KeyInfo × Buffer
  unfolding read_optional_origin read_alphanumeric decode_ext_pubkey read_wildcard
  parse_policy_map_key_info held buffer version =
      if not (version == 1 || version == 2)
      then (none, buffer)
      else let (origin, b0) = read_optional_origin buffer in
        let (text, b1) = read_alphanumeric max_serialized_pubkey_length b0 in
        let (wildcard, b2) = read_wildcard version b1 in
        elim origin [
          | none ↦ (none, b0)
          | some (has_origin, fingerprint, steps) ↦ elim (decode_ext_pubkey held text) [
            | none ↦ (none, b1)
            | some key ↦ elim wildcard [
              | none ↦ (none, b2)
              | some has_wildcard ↦ (
                some (record {
                  master_key_derivation = steps;
                  master_key_fingerprint = fingerprint;
                  has_key_origin = has_origin;
                  has_wildcard = has_wildcard;
                  ext_pubkey = key;
                }),
                b2,
              )
            ]
          ]
        ]
