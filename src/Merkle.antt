-- ===== src/Merkle.antt =====
-- src/common/merkle.c and the inline `ceil_lg` of merkle.h: node hashes and the directions from the
-- root of a Merkle tree to a leaf. SHA-256 itself is the device's, the parameter `Sha256`.
pub mod Tree
pub mod Directions
pub mod Hang
pub mod Tests
use ledger_babylon_app.Common.{
  ℕ, zero, suc, ◌+◌, ◌-◌, ◌*◌, ◌%◌, ◌^◌, ◌≡◌, ◌≢◌, List, [], ◌∷◌, ◌++◌, Bool, true, false, not,
  ◌||◌, Option, none, some, if◌then◌else◌, leb, ltb, ◌==◌, length, bit_and,
}
use mathlib.Core.List.{foldl, flatten}

-- The hash library of the device (cx.h): a context is started, fed with chunks and read out; the
-- result is the hash of the chunks one after the other, 32 bytes.
pub record Sha256 : Type 1 where
  pub Context : Type 0
  pub init : Context
  pub update : Context → List ℕ → Context
  pub digest : Context → List ℕ
  pub sha256 : List ℕ → List ℕ
  pub digest_lem :
      (chunks : List (List ℕ)) → digest (foldl update init chunks) ≡ sha256 (flatten chunks)
  pub length-sha256 : (m : List ℕ) → length (sha256 m) ≡ 32

-- Two different messages with one hash.
abbrev pub Collision : Sha256 → Type 0
Collision sha = (x : List ℕ) × (y : List ℕ) × (x ≢ y) × (sha.sha256 x ≡ sha.sha256 y)

module _ (sha : Sha256) where
  unfoldable pub merkle_compute_element_hash : List ℕ → List ℕ
  merkle_compute_element_hash input = sha.sha256 (0x00 ∷ input)

  unfoldable pub merkle_combine_hashes : List ℕ → List ℕ → List ℕ
  merkle_combine_hashes left right = sha.sha256 (0x01 ∷ (left ++ right))

-- `while (t < n)` on fuel; `none` is a loop that has not ended. `t` is a uint32_t, `r` a uint8_t.
unfoldable pub ceil_lg_loop : ℕ → ℕ → ℕ → ℕ → Option ℕ
ceil_lg_loop zero n r t = none
ceil_lg_loop (suc fuel) n r t =
    let rest = ceil_lg_loop fuel n ((r + 1) % 256) (2 * t % 2 ^ 32) in
    if ltb t n then rest else some r

unfoldable pub ceil_lg : ℕ → Option ℕ
ceil_lg n = ceil_lg_loop 33 n 0 1

-- The result of `merkle_get_ith_direction`: 0, 1 or -1.
pub data Direction : Type 0 where
  left right fail : Direction

-- `while (size > 1)` on fuel; `none` is a loop that has not ended.
unfoldable pub direction_loop : ℕ → ℕ → ℕ → ℕ → ℕ → Option Direction
direction_loop zero size index n_directions i = none
direction_loop (suc fuel) size index n_directions i = elim (ltb 1 size) [
  | false ↦ some fail
  | true ↦ elim (ceil_lg size) [
    | none ↦ none
    | some depth ↦
        let mask = 2 ^ (depth - 1) in
        let is_right_child = not (bit_and index mask == 0) in
        let rest =
          direction_loop fuel (if is_right_child then size - mask else mask)
            (if is_right_child then index - mask else index) ((n_directions + 1) % 256) i in
        if n_directions == i then some (if is_right_child then right else left) else rest
  ]
]

unfoldable pub merkle_get_ith_direction : ℕ → ℕ → ℕ → Option Direction
merkle_get_ith_direction size index i =
    if leb size 1 || leb size index then some fail else direction_loop 33 size index 0 i
