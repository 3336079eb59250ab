-- ===== src/Client/LeafHash/Sound.antt =====
-- What `call_get_merkle_leaf_hash` guarantees of the hash that it returns.
use ledger_babylon_app.Client.LeafHash.Reach.{Climb-Reached}
use ledger_babylon_app.Buffer.Bounds.{IsValid}
use ledger_babylon_app.Common.{
  ◌*◌, leb, ℕ, suc, ◌+◌, ◌-◌, ◌^◌, ◌≤◌, ◌<◌, ◌≡◌, ◌⊎◌, inl, inr, refl, sym, ap, ◌∙◌, subst, List,
  ◌∷◌, ◌++◌, length, some, bytes_eq, bytes_eq_sound, get_elem?,
}
use ledger_babylon_app.Merkle.{
  Collision, merkle_compute_element_hash, Sha256, merkle_combine_hashes,
}
use ledger_babylon_app.Merkle.Tree.{
  Tree, leaf, node, count, IsMerkle, descend, root, leaves, descend-leaf,
}
use ledger_babylon_app.Client.{
  Dc, ok, >>=-eq-ok, interrupt, read_bytes, read_u8, can_read, guard, varint_bytes,
}
use ledger_babylon_app.Client.Valid.{
  interrupt-Unread, read_bytes-ok, read_u8-ok, can_read-ok, guard-ok, return-ok,
}
use ledger_babylon_app.Client.LeafHash.{call_get_merkle_leaf_hash, leaf_proof_head, proof_loop}
use ledger_babylon_app.Client.LeafHash.Climb.{proof_loop-Climb}

module _ (sha : Sha256) where
  -- The head of the proof is a hash of 32 bytes, and its elements are in the buffer.
  pub leaf_proof_head-ok :
      (merkle_root : List ℕ) (size index : ℕ) (dc : Dc) {r : List ℕ × ℕ × ℕ} {d : Dc}
      → leaf_proof_head sha merkle_root size index dc ≡ (ok r, d)
      → IsValid d.read_buffer
        × (length r.0 ≡ 32)
        × (d.read_buffer.offset + 32 * r.2 ≤ d.read_buffer.size)
  unfolding leaf_proof_head
  leaf_proof_head-ok merkle_root size index dc {r} {d} e =
      let request = (0x41 ∷ merkle_root) ++ (varint_bytes size ++ varint_bytes index) in
      let (u0, s0, a0, e1) = >>=-eq-ok (interrupt request 1) _ dc e in
      let (fresh, start) = interrupt-Unread request 1 dc a0 in
      let (h, s1, a1, e2) = >>=-eq-ok (read_bytes 32 1) _ s0 e1 in
      let (v1, len) = read_bytes-ok 32 1 s0 fresh a1 in
      let (p, s2, a2, e3) = >>=-eq-ok (read_u8 1) _ s1 e2 in
      let v2 = read_u8-ok 1 s1 v1 a2 in
      let (n, s3, a3, e4) = >>=-eq-ok (read_u8 1) _ s2 e3 in
      let v3 = read_u8-ok 1 s2 v2 a3 in
      let (u4, s4, a4, e5) = >>=-eq-ok (guard (leb n p) 1) _ s3 e4 in
      let (bound, same4) = guard-ok (leb n p) 1 s3 a4 in
      let v4 : IsValid s4.read_buffer = subst (λ s. IsValid s.read_buffer) same4 v3 in
      let (u5, s5, a5, e6) = >>=-eq-ok (can_read (32 * n) 1) _ s4 e5 in
      let (same5, room) = can_read-ok (32 * n) 1 s4 v4 a5 in
      let (same6, same7) = return-ok (h, p, n) s5 e6 in
      let state : s4 ≡ d = same5 ∙ same7 in
      subst
        (λ x.
          IsValid d.read_buffer
          × (length x.0 ≡ 32)
          × (d.read_buffer.offset + 32 * x.2 ≤ d.read_buffer.size))
        same6
        (subst
          (λ s.
            IsValid s.read_buffer
            × (length h ≡ 32)
            × (s.read_buffer.offset + 32 * n ≤ s.read_buffer.size))
          state (v4, len, room))

  -- Whatever the host sends, a hash that `call_get_merkle_leaf_hash` returns for the root of an
  -- RFC 6962 tree of at most 2 ^ 31 leaves and an index in range is the hash of a node on the way from
  -- the root to that leaf, unless two different messages with one SHA-256 hash are at hand.
  pub leaf_hash_sound :
      (t : Tree) (index : ℕ) (dc d : Dc) (h : List ℕ)
      → IsMerkle t
      → count t ≤ 2 ^ 31
      → index < count t
      → call_get_merkle_leaf_hash sha (root sha t) (count t) index dc ≡ (ok h, d)
      → ((k : ℕ) × (s : Tree) × (descend t index k ≡ some s) × (root sha s ≡ h)) ⊎ Collision sha
  unfolding call_get_merkle_leaf_hash
  leaf_hash_sound t index dc d h m small range e =
      let (head, d1, a1, e1) =
        >>=-eq-ok (leaf_proof_head sha (root sha t) (count t) index) _ dc e in
      let (v1, len, room) = leaf_proof_head-ok (root sha t) (count t) index dc a1 in
      let (hash, d2, a2, e2) =
        >>=-eq-ok (proof_loop sha (count t) index head.1 (suc (length dc.inbox)) head.2 0 head.0) _
          d1 e1 in
      let (u3, d3, a3, e3) = >>=-eq-ok (guard (bytes_eq (root sha t) hash) 1) _ d2 e2 in
      let (same, state) = guard-ok (bytes_eq (root sha t) hash) 1 d2 a3 in
      let (same', state') = return-ok head.0 d3 e3 in
      let climb =
        proof_loop-Climb sha (count t) index head.1 (suc (length dc.inbox)) head.2 0 head.0 hash d1
          d2 v1 room a2 in
      elim (Climb-Reached sha t m small index range head.1 refl (sym (bytes_eq_sound _ _ same)) len
        climb) [ inl (s, ds, rs) ↦ inl (head.1 - 0, s, ds, rs ∙ same') | inr c ↦ inr c ]

  element_clash :
      (a b element : List ℕ)
      → merkle_combine_hashes sha a b ≡ merkle_compute_element_hash sha element
      → Collision sha
  unfolding merkle_combine_hashes merkle_compute_element_hash
  element_clash a b element e = (1 ∷ (a ++ b), 0 ∷ element, (λ q. cc q), e)

  -- Whatever the host sends, if `call_get_merkle_leaf_hash` returns the hash of an element (of a
  -- message that starts with 0x00) for the root of an RFC 6962 tree of at most 2 ^ 31 leaves and an
  -- index in range, then that hash is the leaf at the index, unless two different messages with one
  -- SHA-256 hash are at hand.
  pub leaf_element_sound :
      (t : Tree) (index : ℕ) (dc d : Dc) (element : List ℕ)
      → IsMerkle t
      → count t ≤ 2 ^ 31
      → index < count t
      → call_get_merkle_leaf_hash sha (root sha t) (count t) index dc
        ≡ (ok (merkle_compute_element_hash sha element), d)
      → (get_elem? (leaves t) index ≡ some (merkle_compute_element_hash sha element))
        ⊎ Collision sha
  leaf_element_sound t index dc d element m small range e =
      elim (leaf_hash_sound t index dc d _ m small range e) [
        | inr c ↦ inr c
        | inl (k, leaf g, ds, rs) ↦ inl (descend-leaf t index k g range ds ∙ ap some rs)
        | inl (k, node a b, ds, rs) ↦ inr (clash a b rs)
      ]
    where
      clash :
          (a b : Tree)
          → merkle_combine_hashes sha (root sha a) (root sha b)
            ≡ merkle_compute_element_hash sha element
          → Collision sha
      clash a b rs = element_clash (root sha a) (root sha b) element rs
