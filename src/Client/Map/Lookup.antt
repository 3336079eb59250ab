-- ===== src/Client/Map/Lookup.antt =====
-- What the host can make of an index, and of a value for a key.
use ledger_babylon_app.Common.{
  ℕ, suc, ◌+◌, ◌-◌, ◌%◌, ◌^◌, ◌≤◌, ◌<◌, ◌≡◌, ◌⊎◌, inl, inr, refl, sym, ap, ◌∙◌, subst, arith, List,
  ◌∷◌, ◌++◌, ◌||◌, not, some, length, ◌==◌, ltb, bytes_eq, bytes_eq_sound, get_elem?, get_elem?-lt,
  Bool-cases, ltb→lt, ltb-false, size_mod,
}
use native.Mathlib.Nat.{mod-eq_of_lt}
use ledger_babylon_app.Merkle.{Sha256, Collision, merkle_compute_element_hash}
use ledger_babylon_app.Merkle.Tree.{Tree, count, IsMerkle, descend, root, leaves, length-leaves}
use ledger_babylon_app.Merkle.Directions.{ith_direction_fail}
use ledger_babylon_app.Client.{
  Res, Dc, M, ok, err, stuck, >>=-eq-ok, guard, interrupt, read_u8, read_varint, fail_with,
}
use ledger_babylon_app.Client.Valid.{guard-ok, return-ok}
use ledger_babylon_app.Client.LeafHash.{call_get_merkle_leaf_hash, leaf_proof_head, proof_loop}
use ledger_babylon_app.Client.LeafHash.Climb.{Climb, stop, from_left, from_right, proof_loop-Climb}
use ledger_babylon_app.Client.LeafHash.Sound.{
  leaf_proof_head-ok, leaf_element_sound, leaf_hash_sound,
}
use ledger_babylon_app.Client.Preimage.Sound.{get_merkle_preimage_sound}
use ledger_babylon_app.Client.Map.{
  MapCommitment, recode, recode_res, return_int, call_get_merkle_leaf_element,
  call_get_merkle_leaf_index, call_get_merkleized_map_value,
}

recode_res-ok : {A : Type 0} (n : ℕ) (r : Res A) {a : A} → recode_res n r ≡ ok a → r ≡ ok a
unfolding recode_res
recode_res-ok n (ok b) e = e
recode_res-ok n (err k) e = cc
recode_res-ok n stuck e = cc

pub recode-ok :
    {A : Type 0} (n : ℕ) (m : M A) (dc : Dc) {a : A} {d : Dc}
    → recode n m dc ≡ (ok a, d)
    → m dc ≡ (ok a, d)
unfolding recode
recode-ok n m dc {a} {d} e =
    let r : (m dc).0 ≡ ok a = recode_res-ok n (m dc).0 (ap (λ p. p.0) e) in
    let s : (m dc).1 ≡ d = ap (λ p. p.1) e in cc

return_int-ok : (v : ℕ) (dc : Dc) {i : ℕ} {d : Dc} → return_int v dc ≡ (ok i, d) → i ≡ v % 2 ^ 32
unfolding return_int
return_int-ok v dc {i} e = elim (Bool-cases (ltb (v % 2 ^ 32) (2 ^ 31))) [
  | inl s ↦ sym (return-ok (v % 2 ^ 32) dc (rw s at e)).0
  | inr s ↦ let f : fail_with (2 ^ 32 - v % 2 ^ 32) dc ≡ (ok i, _) = rw s at e in cc
]

module _ (sha : Sha256) where
  -- With an index out of range no step of a climb is possible.
  Climb-out_of_range :
      (size index p : ℕ) {i j : ℕ} {h g : List ℕ}
      → size ≤ index
      → Climb sha size index p i h j g
      → h ≡ g
  Climb-out_of_range size index p o stop = refl
  Climb-out_of_range size index p o (from_left sib next l d e c) =
      cc (ith_direction_fail size index _ o)
  Climb-out_of_range size index p o (from_right sib next l d e c) =
      cc (ith_direction_fail size index _ o)

  -- For an index that is not below the size, the only hash that `call_get_merkle_leaf_hash` can return
  -- is the root itself.
  pub leaf_hash_out_of_range :
      (merkle_root : List ℕ) (size index : ℕ) (dc d : Dc) (h : List ℕ)
      → size ≤ index
      → call_get_merkle_leaf_hash sha merkle_root size index dc ≡ (ok h, d)
      → h ≡ merkle_root
  unfolding call_get_merkle_leaf_hash
  leaf_hash_out_of_range merkle_root size index dc d h o e =
      let (head, d1, a1, e1) = >>=-eq-ok (leaf_proof_head sha merkle_root size index) _ dc e in
      let (v1, len, room) = leaf_proof_head-ok sha merkle_root size index dc a1 in
      let (hash, d2, a2, e2) =
        >>=-eq-ok (proof_loop sha size index head.1 (suc (length dc.inbox)) head.2 0 head.0) _ d1
          e1 in
      let (u3, d3, a3, e3) = >>=-eq-ok (guard (bytes_eq merkle_root hash) 1) _ d2 e2 in
      let (same, state) = guard-ok (bytes_eq merkle_root hash) 1 d2 a3 in
      let (same', state') = return-ok head.0 d3 e3 in
      let climb =
        proof_loop-Climb sha size index head.1 (suc (length dc.inbox)) head.2 0 head.0 hash d1 d2 v1
          room a2 in
      sym same' ∙ Climb-out_of_range size index head.1 o climb ∙ sym (bytes_eq_sound _ _ same)

  leaf_index-ok :
      (size : ℕ) (r h : List ℕ) (dc d : Dc) (i : ℕ)
      → call_get_merkle_leaf_index sha size r h dc ≡ (ok i, d)
      → (dc' : Dc) × (d' : Dc) × (call_get_merkle_leaf_hash sha r size i dc' ≡ (ok h, d'))
  unfolding call_get_merkle_leaf_index
  leaf_index-ok size r h dc d i e =
      let (u0, s0, a0, e0) = >>=-eq-ok (interrupt (0x42 ∷ (r ++ h)) 3) _ dc e in
      let (found, s1, a1, e1) = >>=-eq-ok (read_u8 1) _ s0 e0 in
      let (index, s2, a2, e2) = >>=-eq-ok (read_varint 1) _ s1 e1 in
      let (u3, s3, a3, e3) = >>=-eq-ok (guard (found == 0 || found == 1) 2) _ s2 e2 in
      let (u4, s4, a4, e4) = >>=-eq-ok (guard (not (found == 0)) 3) _ s3 e3 in
      let (returned, s5, a5, e5) =
        >>=-eq-ok (recode 4 (call_get_merkle_leaf_hash sha r size (index % 2 ^ 32))) _ s4 e4 in
      let (u6, s6, a6, e6) = >>=-eq-ok (guard (bytes_eq h returned) 5) _ s5 e5 in
      let (same, state) = guard-ok (bytes_eq h returned) 5 s5 a6 in
      let hash : returned ≡ h = sym (bytes_eq_sound h returned same) in
      let at : i ≡ index % 2 ^ 32 = return_int-ok index s6 e6 in
      (
        s4,
        s5,
        subst (λ x. call_get_merkle_leaf_hash sha r size x s4 ≡ (ok h, s5)) (sym at)
            (recode-ok 4 (call_get_merkle_leaf_hash sha r size (index % 2 ^ 32)) s4 a5
              ∙ ap (λ x. (ok x, s5)) hash),
      )

  -- An index that `call_get_merkle_leaf_index` returns for an element and the root of an RFC 6962 tree
  -- of at most 2 ^ 31 leaves is the index of a leaf with that element, or it is out of range and the
  -- element's hash is the root itself, unless there is a collision at hand.
  pub leaf_index_sound :
      (t : Tree) (element : List ℕ) (dc d : Dc) (i : ℕ)
      → IsMerkle t
      → count t ≤ 2 ^ 31
      → call_get_merkle_leaf_index sha
          (count t)
          (root sha t)
          (merkle_compute_element_hash sha element)
          dc
        ≡ (ok i, d)
      → (get_elem? (leaves t) i ≡ some (merkle_compute_element_hash sha element))
        ⊎ ((count t ≤ i) × (merkle_compute_element_hash sha element ≡ root sha t))
        ⊎ Collision sha
  leaf_index_sound t element dc d i m small e =
      let (dc', d', e') =
        leaf_index-ok (count t) (root sha t) (merkle_compute_element_hash sha element) dc d i e in
      elim (Bool-cases (ltb i (count t))) [
        | inl below ↦
            elim (leaf_element_sound sha t i dc' d' element m small (ltb→lt i (count t) below) e') [
              | inl found ↦ inl found
              | inr c ↦ inr (inr c)
            ]
        | inr above ↦
            let o : count t ≤ i = ltb-false i (count t) above in
            inr (inl (o, leaf_hash_out_of_range (root sha t) (count t) i dc' d' _ o e'))
      ]

  abbrev pub commitment : Tree → Tree → MapCommitment
  commitment keys values = record {
    size = count keys;
    keys_root = root sha keys;
    values_root = root sha values;
  }

  -- A value of `n` bytes that `call_get_merkleized_map_value` returns for a key, with the roots of two
  -- RFC 6962 trees of one size, at most 2 ^ 31: at some index the first tree has a leaf with the key,
  -- and in the second tree a node on the way to the leaf at that index is the hash of `n + 1` bytes.
  -- Otherwise the key's hash is the root of the first tree, or a collision is at hand.
  pub map_value_sound :
      (keys values : Tree) (key out out' : List ℕ) (n : ℕ) (dc d : Dc)
      → IsMerkle keys
      → IsMerkle values
      → count keys ≤ 2 ^ 31
      → count values ≡ count keys
      → length out < size_mod
      → call_get_merkleized_map_value sha (commitment keys values) key out dc ≡ (ok (n, out'), d)
      → ((i : ℕ) × (m : List ℕ) × (k : ℕ) × (s : Tree) × (get_elem? (leaves keys) i
            ≡ some (merkle_compute_element_hash sha key))
          × (descend values i k ≡ some s)
          × (root sha s ≡ sha.sha256 m)
          × (length m ≡ n + 1)
          × (n ≤ length out))
        ⊎ (merkle_compute_element_hash sha key ≡ root sha keys)
        ⊎ Collision sha
  unfolding call_get_merkleized_map_value call_get_merkle_leaf_element
  map_value_sound keys values key out out' n dc d mk mv small same_count room e =
      let size = count keys % 2 ^ 32 in
      let hash = merkle_compute_element_hash sha key in
      let exact : size ≡ count keys = mod-eq_of_lt {n = count keys} {m = 2 ^ 32} (omega arith) in
      let (i, d1, a1, e1) =
        >>=-eq-ok (recode 1 (call_get_merkle_leaf_index sha size (root sha keys) hash)) _ dc e in
      let indexed =
        subst (λ x. call_get_merkle_leaf_index sha x (root sha keys) hash dc ≡ (ok i, d1)) exact
          (recode-ok 1 (call_get_merkle_leaf_index sha size (root sha keys) hash) dc a1) in
      let (h, d2, a2, e2) =
        >>=-eq-ok (call_get_merkle_leaf_hash sha (root sha values) size i) _ d1 e1 in
      let hashed =
        subst (λ x. call_get_merkle_leaf_hash sha (root sha values) x i d1 ≡ (ok h, d2))
          (exact ∙ sym same_count) a2 in
      let (m, eh, length_m, fits, shown) =
        get_merkle_preimage_sound sha h out out' n d2 d room e2 in
      elim (leaf_index_sound keys key dc d1 i mk small indexed) [
        | inr (inl (o, q)) ↦ inr (inl q)
        | inr (inr c) ↦ inr (inr c)
        | inl found ↦
            elim (leaf_hash_sound sha values i d1 d2 h mv (omega arith)
              (omega (arith, get_elem?-lt (leaves keys) i found, length-leaves keys)) hashed) [
                | inr c ↦ inr (inr c)
                | inl (k, s, ds, rs) ↦ inl (i, m, k, s, found, ds, rs ∙ sym eh, length_m, fits)
              ]
      ]
