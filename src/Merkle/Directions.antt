-- ===== src/Merkle/Directions.antt =====
-- `merkle_get_ith_direction` follows the way from the root to a leaf of an RFC 6962 tree.
use native.Mathlib.Decide.{dec_lt}
use ledger_babylon_app.Common.{
  List, ◌⊎◌, lt→ltb, le→ltb, eq→==, ne→==, ℕ, zero, suc, ◌+◌, ◌-◌, ◌*◌, ◌/◌, ◌%◌, ◌^◌, ◌≤◌, ◌<◌,
  ◌≡◌, inl, inr, refl, arith, some, false, not, ltb, leb, ◌==◌, if◌then◌else◌, Bool-cases, bit_and,
  ap, ◌∙◌, sym,
}
use ledger_babylon_app.Common.Bits.{bit_and_single, pow_pos}
use native.Mathlib.Nat.{mod-eq_of_lt, pow-le-pow_right, div-eq_of_lt, pow-suc, mul-le-mul_left}
use ledger_babylon_app.Merkle.{
  ceil_lg_loop, ceil_lg, Direction, left, right, fail, direction_loop, merkle_get_ith_direction,
}
use ledger_babylon_app.Merkle.Tree.{descend, Tree, leaf, node, count, IsMerkle, count-pos}

pub twice : (t d : ℕ) → 2 * t * 2 ^ d ≡ t * 2 ^ suc d
twice t d = omega (arith, ap (λ u. t * u) (pow-suc 2 d))

pub factor_le : (t d : ℕ) → t ≤ t * 2 ^ d
factor_le t d = omega (arith, mul-le-mul_left t (pow_pos d))

-- With `d` doublings to go the loop returns `r + d`.
ceil_lg_loop_lem :
    (d fuel r t n : ℕ)
    → d < fuel
    → r + d < 256
    → t * 2 ^ d < 2 ^ 32
    → n ≤ t * 2 ^ d
    → ((e : ℕ) → d ≡ suc e → t * 2 ^ e < n)
    → ceil_lg_loop fuel n r t ≡ some (r + d)
unfolding ceil_lg_loop
ceil_lg_loop_lem d zero r t n hf hr ht hn low = absurd (omega arith)
ceil_lg_loop_lem zero (suc f) r t n hf hr ht hn low = ground arith
ceil_lg_loop_lem (suc d) (suc f) r t n hf hr ht hn low = ground (
  arith,
  low d refl,
  twice t d,
  factor_le t d,
  ceil_lg_loop_lem d f (r + 1) (2 * t) n (omega arith) (omega arith) (omega (arith, twice t d))
      (omega (arith, twice t d))
      (λ e h. omega (arith, low d refl, twice t e, ap (λ u. t * 2 ^ u) h)),
  factor_le (2 * t) d,
)

pow_lt-cancel : (k d : ℕ) → 2 ^ k < 2 ^ d → k < d
pow_lt-cancel k d h = elim (dec_lt k d) [
  | yes p ↦ p
  | no p ↦
      absurd (omega (arith, pow-le-pow_right {n = 2} (omega arith) {i = d} {j = k} (omega arith)))
]

-- The loop ends on every number up to 2 ^ 31, with the number of bits that index so many leaves.
pub ceil_lg_lem :
    (k m : ℕ) → 0 < m → m ≤ 2 ^ k → 2 ^ k < 2 ^ 31 → ceil_lg (2 ^ k + m) ≡ some (k + 1)
unfolding ceil_lg
ceil_lg_lem k m hm hk h31 =
    let small : k < 31 = pow_lt-cancel k 31 h31 in
    ceil_lg_loop_lem (suc k) 33 0 1 (2 ^ k + m) (omega arith) (omega arith)
      (omega (arith, pow-suc 2 k)) (omega (arith, pow-suc 2 k)) (λ e h. low e (omega arith))
    ∙ ap some (omega arith)
  where
    low : (e : ℕ) → k ≡ e → 1 * 2 ^ e < 2 ^ k + m
    low e h = rw (← h) (omega arith)

-- The mask test asks on which side of `2 ^ k` the index lies.
mask_test :
    (k index : ℕ)
    → index < 2 ^ k + 2 ^ k
    → not (bit_and index (2 ^ k) == 0) ≡ not (ltb index (2 ^ k))
mask_test k index h = elim (dec_lt index (2 ^ k)) [
  | yes p ↦
      let e : index / 2 ^ k ≡ 0 = div-eq_of_lt p in
      let z : bit_and index (2 ^ k) ≡ 0 = bit_and_single k index ∙ rw e (omega arith) in
      ground (arith, z)
  | no p ↦
      let e : index / 2 ^ k ≡ 1 = grind (arith, pow_pos k) in
      let z : bit_and index (2 ^ k) ≡ 2 ^ k = bit_and_single k index ∙ rw e (omega arith) in
      ground (arith, z, pow_pos k)
]

-- One round of the loop at a node of an RFC 6962 tree.
direction_loop-node :
    (fuel a m k index n i : ℕ)
    → a ≡ 2 ^ k
    → 0 < m
    → m ≤ a
    → a < 2 ^ 31
    → index < a + m
    → direction_loop (suc fuel) (a + m) index n i ≡ (
        if n == i
        then some (if ltb index a then left else right)
        else direction_loop fuel
            (if ltb index a then a else m)
            (if ltb index a then index else index - a)
            ((n + 1) % 256)
            i)
unfolding direction_loop
direction_loop-node fuel a m k index n i ea hm hk h31 hi =
    let e : a + m ≡ 2 ^ k + m = ap (λ t. t + m) ea in
    let c : ceil_lg (a + m) ≡ some (k + 1) =
      ap ceil_lg e ∙ ceil_lg_lem k m hm (omega (arith, ea)) (omega (arith, ea)) in
    let d : 2 ^ (k + 1 - 1) ≡ a =
      (let k' : k + 1 - 1 ≡ k = omega arith in ap (λ t. 2 ^ t) k') ∙ sym ea in
    let mask : not (bit_and index a == 0) ≡ not (ltb index a) =
      rw ea (mask_test k index (omega (arith, ea))) in
    rw (lt→ltb 1 (a + m) (omega arith), direction_loop)
      (rw (c, direction_loop)
        (rw (d, mask)
          (let over : a + m - a ≡ m = omega arith in
            elim (Bool-cases (ltb index a)) [
              | inl below ↦ rw below
              | inr above ↦ rw (above, over)
            ])))

-- The turn that the way to `index` takes `k` steps below the root.
abbrev pub turn : Tree → ℕ → ℕ → Direction
turn (leaf h) index k = fail
turn (node l r) index zero = if ltb index (count l) then left else right
turn (node l r) index (suc k) =
    if ltb index (count l) then turn l index k else turn r (index - count l) k

fits_half : (k m d : ℕ) → 0 < m → 2 ^ k + m ≤ 2 ^ d → (2 ^ k ≤ 2 ^ (d - 1)) × (0 < d)
fits_half k m d hm h =
    let lt : k < d = pow_lt-cancel k d (omega arith) in
    (pow-le-pow_right {n = 2} (omega arith) {i = k} {j = d - 1} (omega arith), omega arith)

-- The loop from `n` turns on, for a target `j` turns further on.
direction_loop_lem :
    (t : Tree) (fuel d index n i j : ℕ)
    → IsMerkle t
    → d < fuel
    → count t ≤ 2 ^ d
    → count t ≤ 2 ^ 31
    → n + d < 256
    → index < count t
    → i ≡ n + j
    → direction_loop fuel (count t) index n i ≡ some (turn t index j)
direction_loop_lem t zero d index n i j m hf hd hc hn hi e = absurd (omega arith)
direction_loop_lem (leaf h) (suc f) d index n i j m hf hd hc hn hi e = unfold direction_loop in refl
direction_loop_lem (node l r) (suc f) d index n i zero (ml, mr, (k, ek, hk)) hf hd hc hn hi e =
    direction_loop-node f (count l) (count r) k index n i ek (count-pos r) (omega (arith, ek))
      (omega (arith, count-pos r)) hi
    ∙ rw (eq→== n i (omega arith))
direction_loop_lem (node l r) (suc f) d index n i (suc j) (ml, mr, (k, ek, hk)) hf hd hc hn hi e =
    direction_loop-node f (count l) (count r) k index n i ek (count-pos r) (omega (arith, ek))
      (omega (arith, count-pos r)) hi
    ∙ rw (ne→== n i (omega arith), mod-eq_of_lt {n = n + 1} {m = 256} (omega (arith, half)))
        (elim (dec_lt index (count l)) [
          | yes p ↦ rw (lt→ltb _ _ p) (
              direction_loop_lem l f (d - 1) index (n + 1) i j ml (omega (arith, half))
                (omega (arith, half, ek)) (omega arith) (omega (arith, half)) p (omega arith))
          | no p ↦ rw (le→ltb index (count l) (omega arith)) (
              direction_loop_lem r f (d - 1) (index - count l) (n + 1) i j mr (omega (arith, half))
                (omega (arith, half)) (omega arith) (omega (arith, half)) (omega arith)
                (omega arith))
        ])
  where
    half : (2 ^ k ≤ 2 ^ (d - 1)) × (0 < d)
    half = fits_half k (count r) d (count-pos r) (omega (arith, ek))

-- In an RFC 6962 tree of at most 2 ^ 31 leaves, for a leaf index that is in range, the code computes
-- every turn of the way from the root to that leaf, and -1 from the leaf on; its loops end.
pub ith_direction_lem :
    (t : Tree) (index i : ℕ)
    → IsMerkle t
    → count t ≤ 2 ^ 31
    → index < count t
    → merkle_get_ith_direction (count t) index i ≡ some (turn t index i)
unfolding merkle_get_ith_direction
ith_direction_lem (leaf h) index i m hc hi = refl
ith_direction_lem (node l r) index i m hc hi =
    let one : leb (count l + count r) 1 ≡ false = ground (arith, count-pos l, count-pos r) in
    let range : leb (count l + count r) index ≡ false = ground arith in
    rw (one, range)
      (direction_loop_lem (node l r) 33 31 index 0 i i m (omega arith) hc hc (omega arith) hi
        (omega arith))

-- At an index out of range there is no direction.
pub ith_direction_fail :
    (size index i : ℕ) → size ≤ index → merkle_get_ith_direction size index i ≡ some fail
unfolding merkle_get_ith_direction
ith_direction_fail size index i h = ground arith

-- The turn at the node that the way reaches after `k` steps.
pub turn-leaf :
    (t : Tree) (index k : ℕ) {h : List ℕ}
    → descend t index k ≡ some (leaf h)
    → turn t index k ≡ fail
turn-leaf (leaf g) index zero e = refl
turn-leaf (node l r) index zero e = cc
turn-leaf (leaf g) index (suc k) e = refl
turn-leaf (node l r) index (suc k) {h} e =
    ground (arith, turn-leaf l index k {h = h}, turn-leaf r (index - count l) k {h = h})

pub turn-node :
    (t : Tree) (index k : ℕ) {a b : Tree}
    → descend t index k ≡ some (node a b)
    → ((turn t index k ≡ left) × (descend t index (suc k) ≡ some a))
      ⊎ ((turn t index k ≡ right) × (descend t index (suc k) ≡ some b))
turn-node (leaf g) index zero e = cc
turn-node (leaf g) index (suc k) e = cc
turn-node (node l r) index zero e = ground arith
turn-node (node l r) index (suc k) e = elim (Bool-cases (ltb index (count l))) [
  | inl below ↦ rw below (turn-node l index k (rw below at e))
  | inr above ↦ rw above (turn-node r (index - count l) k (rw above at e))
]
