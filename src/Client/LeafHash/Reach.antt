-- ===== src/Client/LeafHash/Reach.antt =====
-- A climb that ends at the root of a tree started at the hash of a node on the way to the leaf.
use ledger_babylon_app.Common.{
  ℕ, suc, ◌+◌, ◌-◌, ◌^◌, ◌≤◌, ◌<◌, ◌≡◌, ◌≢◌, ◌⊎◌, inl, inr, refl, sym, ap, ◌∙◌, subst, arith, List,
  ◌∷◌, ◌++◌, length, take, drop, some, bytes_eq, bytes_eq_sound, take-append, drop-append,
  Bool-cases, true, false, bytes_eq_refl,
}
use ledger_babylon_app.Merkle.{
  Collision, Sha256, merkle_combine_hashes, left, right, merkle_get_ith_direction,
}
use ledger_babylon_app.Merkle.Tree.{
  Tree, leaf, node, count, IsMerkle, descend, root, length-root, descend-IsMerkle,
}
use ledger_babylon_app.Merkle.Directions.{turn-leaf, turn-node, ith_direction_lem}
use ledger_babylon_app.Client.LeafHash.Climb.{Climb, stop, from_left, from_right}

module _ (sha : Sha256) where
  -- The children of a node can be told from its hash, but for a collision.
  pub combine-injective :
      (a b c d : List ℕ)
      → length a ≡ length c
      → merkle_combine_hashes sha a b ≡ merkle_combine_hashes sha c d
      → ((a ≡ c) × (b ≡ d)) ⊎ Collision sha
  unfolding merkle_combine_hashes
  combine-injective a b c d h e = elim (Bool-cases (bytes_eq (a ++ b) (c ++ d))) [
    | inl same ↦
        let s : a ++ b ≡ c ++ d = bytes_eq_sound _ _ same in
        inl (
          sym (take-append a b (length a) refl)
              ∙ ap (take (length a)) s
              ∙ take-append c d (length a) h,
          sym (drop-append a b (length a) refl)
              ∙ ap (drop (length a)) s
              ∙ drop-append c d (length a) h,
        )
    | inr differ ↦ inr (1 ∷ (a ++ b), 1 ∷ (c ++ d), apart differ, e)
  ]
    where
      apart : bytes_eq (a ++ b) (c ++ d) ≡ false → (1 ∷ (a ++ b)) ≢ (1 ∷ (c ++ d))
      apart differ s =
          let t : a ++ b ≡ c ++ d = ap (drop 1) s in
          let r : bytes_eq (a ++ b) (c ++ d) ≡ true = rw t (bytes_eq_refl (c ++ d)) in cc

  module _ (t : Tree) (m : IsMerkle t) (small : count t ≤ 2 ^ 31) (index : ℕ)
      (range : index < count t) where
    -- The node `k` steps from the root towards the leaf at `index` has hash `h`, or there is a
    -- collision.
    abbrev pub Reached : ℕ → List ℕ → Type 0
    Reached k h = ((s : Tree) × (descend t index k ≡ some s) × (root sha s ≡ h)) ⊎ Collision sha

    Climb-le : {p i j : ℕ} {h g : List ℕ} → Climb sha (count t) index p i h j g → i ≤ j
    Climb-le stop = omega arith
    Climb-le (from_left sib next l d e c) = omega (arith, Climb-le c)
    Climb-le (from_right sib next l d e c) = omega (arith, Climb-le c)

    -- One step down again, from a node that is the join of two hashes.
    below_left :
        (k : ℕ) (h sib : List ℕ)
        → length h ≡ 32
        → merkle_get_ith_direction (count t) index k ≡ some left
        → Reached k (merkle_combine_hashes sha h sib)
        → Reached (suc k) h
    below_left k h sib hl d (inr c) = inr c
    below_left k h sib hl d (inl (leaf g, e, r)) =
        cc (turn-leaf t index k e, ith_direction_lem t index k m small range)
    below_left k h sib hl d (inl (node a b, e, r)) =
        let mn = descend-IsMerkle t index k m e in
        elim (combine-injective (root sha a) (root sha b) h sib (length-root sha a mn.0 ∙ sym hl)
          r) [
            | inr c ↦ inr c
            | inl (ea, eb) ↦ elim (turn-node t index k e) [
              | inl (tl, dl) ↦ inl (a, dl, ea)
              | inr (tr, dr) ↦ cc (ith_direction_lem t index k m small range)
            ]
          ]

    below_right :
        (k : ℕ) (h sib : List ℕ)
        → length sib ≡ 32
        → merkle_get_ith_direction (count t) index k ≡ some right
        → Reached k (merkle_combine_hashes sha sib h)
        → Reached (suc k) h
    below_right k h sib hl d (inr c) = inr c
    below_right k h sib hl d (inl (leaf g, e, r)) =
        cc (turn-leaf t index k e, ith_direction_lem t index k m small range)
    below_right k h sib hl d (inl (node a b, e, r)) =
        let mn = descend-IsMerkle t index k m e in
        elim (combine-injective (root sha a) (root sha b) sib h (length-root sha a mn.0 ∙ sym hl)
          r) [
            | inr c ↦ inr c
            | inl (ea, eb) ↦ elim (turn-node t index k e) [
              | inl (tl, dl) ↦ cc (ith_direction_lem t index k m small range)
              | inr (tr, dr) ↦ inl (b, dr, eb)
            ]
          ]

    length-combine : (a b next : List ℕ) → next ≡ merkle_combine_hashes sha a b → length next ≡ 32
    unfolding merkle_combine_hashes
    length-combine a b next e = rw e (sha.length-sha256 _)

    -- A climb that ends at the root in the last step started at the hash of a node on the way.
    pub Climb-Reached :
        (p : ℕ) {i j : ℕ} {h g : List ℕ}
        → j ≡ p
        → g ≡ root sha t
        → length h ≡ 32
        → Climb sha (count t) index p i h j g
        → Reached (p - i) h
    Climb-Reached p {i} e f hl stop =
        let none_left : p - i ≡ 0 = omega arith in rw none_left (inl (t, refl, sym f))
    Climb-Reached p {i} {h = h} e f hl (from_left sib next l d q c) =
        let up : p - i ≡ suc (p - i - 1) = omega (arith, Climb-le c) in
        let at : p - (i + 1) ≡ p - i - 1 = omega arith in
        rw up (
          below_left (p - i - 1) h sib hl d (
            rw (← at) (
              subst (Reached (p - (i + 1))) q
                (Climb-Reached p e f (length-combine h sib next q) c))))
    Climb-Reached p {i} {h = h} e f hl (from_right sib next l d q c) =
        let up : p - i ≡ suc (p - i - 1) = omega (arith, Climb-le c) in
        let at : p - (i + 1) ≡ p - i - 1 = omega arith in
        rw up (
          below_right (p - i - 1) h sib l d (
            rw (← at) (
              subst (Reached (p - (i + 1))) q
                (Climb-Reached p e f (length-combine sib h next q) c))))
