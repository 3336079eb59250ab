-- ===== src/Client/Preimage/Forged.antt =====
-- `call_get_merkle_preimage` on a length that is not encoded in a single byte: the loop writes what
-- stands where the first message's bytes stood, which is not what it hashes.
use ledger_babylon_app.Common.{ℕ, ◌≡◌, refl, List, [], ◌∷◌, bytes_eq, bytes_eq_refl, true}
use mathlib.Core.List.{flatten}
use ledger_babylon_app.Buffer.{Buffer}
use ledger_babylon_app.Merkle.{Sha256}
use ledger_babylon_app.Client.{Dc, ok}
use ledger_babylon_app.Client.Preimage.{call_get_merkle_preimage}
use ledger_babylon_app.Client.Preimage.{preimage_head, preimage_loop, more_bytes}
use ledger_babylon_app.Client.{
  interrupt, process_interruption, accept, receive, read_u8, read_varint, can_read,
}
use ledger_babylon_app.Buffer.{
  buffer_can_read, buffer_read_u8, buffer_read_varint, buffer_write_bytes,
}
use ledger_babylon_app.Varint.{varint_read}
use ledger_babylon_app.Bytes.{read_u16_le}
use ledger_babylon_app.Apdu.{apdu_parser}

-- A length of 2 in the three-byte form, and the first byte of the preimage, 0x00.
abbrev pub first_message : List ℕ
first_message = 0xf8 ∷ 0x01 ∷ 0 ∷ 0 ∷ 5 ∷ (0xfd ∷ 2 ∷ 0 ∷ 1 ∷ 0x00 ∷ [])

-- One more byte, `a`; and at position 4 of the message the byte `x`.
abbrev pub second_message : ℕ → ℕ → List ℕ
second_message a x = 0xf8 ∷ 0x01 ∷ 0 ∷ 0 ∷ 5 ∷ (1 ∷ 1 ∷ a ∷ 0 ∷ x ∷ [])

-- The dispatcher before the call, with these two messages to come.
abbrev pub facing : List ℕ → Buffer → List (List ℕ) → ℕ → ℕ → Dc
facing memory buffer rest a x = record {
  apdu_buffer = memory;
  read_buffer = buffer;
  inbox = first_message ∷ (second_message a x ∷ rest);
  sent = [];
}

hash_matches :
    (sha : Sha256) (a : ℕ)
    → bytes_eq
        (sha.digest (sha.update (sha.update sha.init (0 ∷ [])) (a ∷ [])))
        (sha.sha256 (0 ∷ a ∷ []))
      ≡ true
unfolding flatten
hash_matches sha a =
    let e : sha.digest (sha.update (sha.update sha.init (0 ∷ [])) (a ∷ []))
        ≡ sha.sha256 (0 ∷ a ∷ []) =
      sha.digest_lem ((0 ∷ []) ∷ ((a ∷ []) ∷ [])) in
    rw e (bytes_eq_refl (sha.sha256 (0 ∷ a ∷ [])))

-- For every element of one byte `a`, and every byte `x`, the host can have the call accept the hash
-- of the element and return `x` in its place.
pub forged_element :
    (sha : Sha256) (memory : List ℕ) (buffer : Buffer) (rest : List (List ℕ)) (a x : ℕ)
    → (call_get_merkle_preimage sha
        (sha.sha256 (0x00 ∷ a ∷ []))
        (0 ∷ [])
        (facing memory buffer rest a x)).0
      ≡ ok (1, x ∷ [])
unfolding call_get_merkle_preimage preimage_head preimage_loop more_bytes interrupt
    process_interruption accept receive read_u8 read_varint can_read buffer_can_read buffer_read_u8
    buffer_read_varint buffer_write_bytes varint_read read_u16_le apdu_parser
forged_element sha memory buffer rest a x = rw (hash_matches sha a) refl
