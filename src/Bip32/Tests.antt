-- ===== src/Bip32/Tests.antt =====
-- Paths.
use ledger_babylon_app.Common.{
  ℕ, ◌+◌, ◌-◌, ◌*◌, ◌≡◌, ◌≤◌, ◌<◌, ◌⊎◌, refl, arith, List, [], ◌∷◌, some, none, true, length,
  get_or,
}
use ledger_babylon_app.Bip32.{
  hardened, bip32_path_read, path_words, parse_serialized_path, is_pubkey_path_standard,
  coin_type_listed,
}
use ledger_babylon_app.Bip32.Reading.{path_read_lem}
use ledger_babylon_app.Bip32.Serialized.{serialize, parse_serialized_path-serialize}
use ledger_babylon_app.Bip32.Standard.{Listed, standard_path}

path_read_lem_example :
    ((2 ≤ 8)
      × ((◌≡◌ {A = ℕ} 2 0) ⊎ (4 * (2 - 1) ≤ 5))
      × (bip32_path_read (0 ∷ 0 ∷ 0 ∷ 1 ∷ 9 ∷ []) 5 2
          ≡ some (path_words (0 ∷ 0 ∷ 0 ∷ 1 ∷ 9 ∷ []) 2 0)))
    ⊎ (((8 < 2) ⊎ ((0 < 2) × (5 < 4 * (2 - 1))))
        × (bip32_path_read (0 ∷ 0 ∷ 0 ∷ 1 ∷ 9 ∷ []) 5 2 ≡ none))
path_read_lem_example = path_read_lem (0 ∷ 0 ∷ 0 ∷ 1 ∷ 9 ∷ []) 5 2

abbrev serialized : List ℕ
serialized = 1 ∷ 0x80 ∷ 0 ∷ 0 ∷ 44 ∷ []

parsed : parse_serialized_path serialized 5 ≡ some (path_words serialized 1 1)
unfolding parse_serialized_path
parsed = refl

abbrev account_path : List ℕ
account_path = (84 + hardened) ∷ (1 + hardened) ∷ (3 + hardened) ∷ []

parse_serialized_path-serialize_example :
    parse_serialized_path (3 ∷ serialize account_path (9 ∷ [])) 14 ≡ some account_path
parse_serialized_path-serialize_example =
    parse_serialized_path-serialize account_path (9 ∷ []) 14 (omega arith)

is_standard : is_pubkey_path_standard account_path 84 (0 ∷ 1 ∷ []) ≡ true
unfolding is_pubkey_path_standard coin_type_listed
is_standard = refl

standard_path_example :
    ((length account_path ≡ 2) ⊎ (length account_path ≡ 3))
    × (get_or account_path 0 0 ≡ 84 + hardened)
    × (hardened ≤ get_or account_path 1 0)
    × (0 < 2 → Listed (get_or account_path 1 0) (0 ∷ 1 ∷ []))
    × (length account_path ≡ 3
        → (hardened ≤ get_or account_path 2 0) × (get_or account_path 2 0 ≤ hardened + 100))
standard_path_example =
    standard_path account_path 84 (0 ∷ 1 ∷ []) (omega arith, (omega arith, (omega arith, tt)))
      (omega arith) (omega arith, (omega arith, tt)) is_standard
