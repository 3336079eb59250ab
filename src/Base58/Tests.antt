-- ===== src/Base58/Tests.antt =====
-- Texts that src/common/base58.c decodes, and texts that it refuses.
use ledger_babylon_app.Common.{◌≡◌, refl, [], ◌∷◌, none, some}
use ledger_babylon_app.Base58.{base58_decode}

-- Hello World!
hello :
    base58_decode
      (0x32 ∷ 0x4e ∷ 0x45 ∷ 0x70 ∷ 0x6f ∷ 0x37 ∷ 0x54 ∷ 0x5a ∷ 0x52 ∷ 0x52 ∷ 0x72 ∷ 0x4c ∷ 0x5a
        ∷ 0x53 ∷ 0x69 ∷ 0x32 ∷ 0x55 ∷ [])
      12
    ≡ some (0x48 ∷ 0x65 ∷ 0x6c ∷ 0x6c ∷ 0x6f ∷ 0x20 ∷ 0x57 ∷ 0x6f ∷ 0x72 ∷ 0x6c ∷ 0x64 ∷ 0x21 ∷ [])
unfolding base58_decode
hello = refl

-- Each leading 1 is a byte 0.
zeros : base58_decode (0x31 ∷ 0x31 ∷ 0x32 ∷ []) 3 ≡ some (0 ∷ 0 ∷ 1 ∷ [])
unfolding base58_decode
zeros = refl

-- 0 is no digit; and there must be room.
no_digit : base58_decode (0x31 ∷ 0x30 ∷ []) 10 ≡ none
unfolding base58_decode
no_digit = refl

no_room : base58_decode (0x31 ∷ 0x31 ∷ 0x32 ∷ []) 2 ≡ none
unfolding base58_decode
no_room = refl
