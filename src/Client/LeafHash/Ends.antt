-- ===== src/Client/LeafHash/Ends.antt =====
-- The leaf proof ends when the host sends no empty messages: each turn of `while (true)` takes one
-- message, and at least one of the elements that remain.
use ledger_babylon_app.Common.{
  ℕ, zero, suc, ◌+◌, ◌-◌, ◌*◌, ◌^◌, ◌≤◌, ◌<◌, ◌≡◌, ◌≢◌, refl, sym, ap, subst, ◌∙◌, arith, List, [],
  ◌∷◌, ◌++◌, true, ◌==◌, leb, leb→le, length, some, take, drop, get_or, All, bytes_eq, ==-false,
}
use ledger_babylon_app.Bytes.{byte_at}
use ledger_babylon_app.Buffer.{Buffer, buffer_get_cur, buffer_read_bytes, buffer_can_read}
use ledger_babylon_app.Merkle.{Sha256, Direction, left, right, fail, merkle_get_ith_direction}
use ledger_babylon_app.Merkle.Tree.{Tree, count, IsMerkle}
use ledger_babylon_app.Merkle.Directions.{turn, ith_direction_lem}
use ledger_babylon_app.Client.{
  Dc, return, interrupt, read_u8, read_bytes, can_read, guard, varint_bytes,
}
use ledger_babylon_app.Client.Spends.{
  EndsWithin, IsNonempty, Spends, Spends-EndsWithin, Spends-bind, Spends-choose, Spends-weaken,
  Taken, FirstTaken, Taken-FirstTaken, announced, interrupt-Spends, read_u8-Spends,
  read_bytes-Spends, can_read-Spends, guard-Spends,
}
use ledger_babylon_app.Client.LeafHash.{
  more_elements, join_hashes, steps, proof_loop, leaf_proof_head, call_get_merkle_leaf_hash,
}

more_elements-Spends :
    (size cur : ℕ) (dc : Dc) (k : ℕ)
    → k ≤ length dc.inbox - 1
    → All IsNonempty dc.inbox
    → Spends (more_elements size cur dc) k (λ n d.
      (1 ≤ n)
      × (cur + n ≤ size)
      × (suc (length d.inbox) ≡ length dc.inbox)
      × All IsNonempty d.inbox)
unfolding more_elements
more_elements-Spends size cur dc k h full =
    Spends-bind (interrupt (0xa0 ∷ []) 1) _ dc k _ _ (interrupt-Spends (0xa0 ∷ []) 1 dc k h)
      (λ u d0 taken.
        let (later, some_elements) = announced dc.inbox d0 full taken in
        let h0 : k ≤ length d0.inbox = omega arith in
        Spends-bind (read_u8 1) _ d0 k _ _ (read_u8-Spends 1 d0 k h0) (λ n d1 p1.
          let h1 : k ≤ length d1.inbox = rw p1.0 h0 in
          Spends-bind (read_u8 1) _ d1 k _ _ (read_u8-Spends 1 d1 k h1) (λ l d2 p2.
            let h2 : k ≤ length d2.inbox = rw p2.0 h1 in
            Spends-bind (can_read (n * l) 1) _ d2 k _ _ (can_read-Spends 1 d2 k h2 (n * l))
              (λ v d3 p3.
                let h3 : k ≤ length d3.inbox = rw p3 h2 in
                Spends-bind (guard (l == 32) 1) _ d3 k _ _ (guard-Spends 1 d3 k h3 (l == 32))
                  (λ w d4 p4.
                    let h4 : k ≤ length d4.inbox = rw p4.0 h3 in
                    Spends-bind (guard (leb (cur + n) size) 1) _ d4 k _ _
                      (guard-Spends 1 d4 k h4 (leb (cur + n) size))
                      (λ x d5 p5.
                        let same = p5.0 ∙ p4.0 ∙ p3 ∙ p2.0 ∙ p1.0 in
                        (
                          subst (λ i. 1 ≤ i) (sym p1.1) (some_elements p1.2),
                          leb→le (cur + n) size p5.1,
                          rw same later.0,
                          rw same later.1,
                        )))))))

after_hash :
    (b : Buffer)
    → b.offset ≡ 0
    → (buffer_read_bytes b 32).0 ≡ true
    → ((buffer_read_bytes b 32).2 ≡ record b { offset = 32 }) × (32 ≤ b.size)
unfolding buffer_read_bytes
after_hash b e done = ground arith

one_more :
    (b : Buffer) → 32 ≤ b.size → buffer_can_read (record b { offset = 32 }) 1 ≡ true → 32 < b.size
unfolding buffer_can_read
one_more b e done = ground arith

-- The size of the proof that the first message announces.
abbrev pub announced_size : List (List ℕ) → ℕ
announced_size inbox = byte_at (get_or inbox 0 []) 37

module _ (sha : Sha256) where
  join_hashes-Spends :
      (d : Direction) (a b : List ℕ) (dc : Dc) (k : ℕ)
      → k ≤ length dc.inbox
      → Spends (join_hashes sha (some d) a b dc) k (λ hash d'. d'.inbox ≡ dc.inbox)
  unfolding join_hashes
  join_hashes-Spends left a b dc k h = refl
  join_hashes-Spends right a b dc k h = refl
  join_hashes-Spends fail a b dc k h = h

  size_announced :
      (inbox : List (List ℕ)) (d0 d1 : Dc) (p : ℕ)
      → Taken inbox d0
      → d1.read_buffer ≡ (buffer_read_bytes d0.read_buffer 32).2
      → (buffer_read_bytes d0.read_buffer 32).0 ≡ true
      → p ≡ byte_at d1.read_buffer.ptr d1.read_buffer.offset
      → buffer_can_read d1.read_buffer 1 ≡ true
      → p ≡ announced_size inbox
  size_announced inbox d0 d1 p (m, rest, split, (same, start, bytes)) e done value there =
      let (advanced, enough) = after_hash d0.read_buffer start done in
      let at = e ∙ advanced in
      let more =
        one_more d0.read_buffer enough (subst (λ b. buffer_can_read b 1 ≡ true) at there) in
      value
      ∙ ap (λ (b : Buffer). byte_at b.ptr b.offset) at
      ∙ bytes 32 more
      ∙ ap (λ ms. byte_at (get_or ms 0 []) 37) (sym split)

  -- The head takes the first message, which says how many elements the proof has.
  leaf_proof_head-Spends :
      (r : List ℕ) (size index : ℕ) (dc : Dc) (k : ℕ)
      → k ≤ length dc.inbox - 1
      → Spends
          (leaf_proof_head sha r size index dc)
          k
          (λ head d. FirstTaken dc.inbox d × (head.1 ≡ announced_size dc.inbox) × (head.2 ≤ head.1))
  unfolding leaf_proof_head
  leaf_proof_head-Spends r size index dc k h =
      let request = (0x41 ∷ r) ++ (varint_bytes size ++ varint_bytes index) in
      Spends-bind (interrupt request 1) _ dc k _ _ (interrupt-Spends request 1 dc k h)
        (λ u d0 taken.
          let h0 : k ≤ length d0.inbox =
            omega (arith, (Taken-FirstTaken dc.inbox d0 d0 taken refl).0) in
          Spends-bind (read_bytes 32 1) _ d0 k _ _ (read_bytes-Spends 1 d0 k h0 32) (λ hash d1 p1.
            let h1 : k ≤ length d1.inbox = rw p1.0 h0 in
            Spends-bind (read_u8 1) _ d1 k _ _ (read_u8-Spends 1 d1 k h1) (λ p d2 p2.
              let h2 : k ≤ length d2.inbox = rw p2.0 h1 in
              Spends-bind (read_u8 1) _ d2 k _ _ (read_u8-Spends 1 d2 k h2) (λ n d3 p3.
                let h3 : k ≤ length d3.inbox = rw p3.0 h2 in
                Spends-bind (guard (leb n p) 1) _ d3 k _ _ (guard-Spends 1 d3 k h3 (leb n p))
                  (λ w d4 p4.
                    let h4 : k ≤ length d4.inbox = rw p4.0 h3 in
                    Spends-bind (can_read (32 * n) 1) _ d4 k _ _
                      (can_read-Spends 1 d4 k h4 (32 * n))
                      (λ x d5 p5. (
                        Taken-FirstTaken dc.inbox d0 d5 taken (p5 ∙ p4.0 ∙ p3.0 ∙ p2.0 ∙ p1.0),
                        size_announced dc.inbox d0 d1 p taken p1.1 p1.2 p2.1 p2.2,
                        leb→le n p p4.1,
                      )))))))

  module _ (t : Tree) (m : IsMerkle t) (small : count t ≤ 2 ^ 31) (index : ℕ)
      (range : index < count t) (size : ℕ) where
    steps-Spends :
        (n cur : ℕ) (hash : List ℕ) (dc : Dc) (k : ℕ)
        → k ≤ length dc.inbox
        → Spends (steps sha (count t) index size n cur hash dc) k (λ h d. d.inbox ≡ dc.inbox)
    unfolding steps
    steps-Spends zero cur hash dc k h = refl
    steps-Spends (suc n) cur hash dc k h =
        let i = size - cur - 1 in
        let sib = take 32 (buffer_get_cur dc.read_buffer) in
        Spends-bind (join_hashes sha (merkle_get_ith_direction (count t) index i) hash sib) _ dc k
          (λ hash' d. d.inbox ≡ dc.inbox) _
          (subst (λ d. Spends (join_hashes sha d hash sib dc) k (λ hash' d'. d'.inbox ≡ dc.inbox))
            (sym (ith_direction_lem t index i m small range))
            (join_hashes-Spends (turn t index i) hash sib dc k h))
          (λ next d e.
            Spends-weaken (steps sha (count t) index size n (cur + 1) next _) k
              (λ hash' d'. d'.inbox ≡ d.inbox) _ (steps-Spends n (cur + 1) next _ k (rw e h))
              (λ hash' d' e'. e' ∙ e))

    proof_loop-Spends :
        (fuel n cur : ℕ) (hash : List ℕ) (dc : Dc) (k : ℕ)
        → length dc.inbox < fuel
        → All IsNonempty dc.inbox
        → cur + n ≤ size
        → k ≤ length dc.inbox - (size - (cur + n))
        → Spends
            (proof_loop sha (count t) index size fuel n cur hash dc)
            k
            (λ hash' d. k ≤ length d.inbox)
    unfolding proof_loop
    proof_loop-Spends zero n cur hash dc k f full within h = absurd (omega arith)
    proof_loop-Spends (suc fuel) n cur hash dc k f full within h =
        Spends-bind (steps sha (count t) index size n cur hash) _ dc k _ _
          (steps-Spends n cur hash dc k (omega arith))
          (λ hash' d e.
            Spends-choose (cur + n == size) (return hash') _ d k _ (λ last. rw e (omega arith))
              (λ go_on.
                let before : cur + n ≢ size = ==-false (cur + n) size go_on in
                Spends-bind (more_elements size (cur + n)) _ d k _ _
                  (more_elements-Spends size (cur + n) d k (rw e (omega arith)) (rw e full))
                  (λ n' d' (some_elements, within', one, later).
                    let one_less : suc (length d'.inbox) ≡ length dc.inbox =
                      one ∙ ap (λ ms. length ms) e in
                    proof_loop-Spends fuel n' (cur + n) hash' d' k (omega arith) later within'
                      (omega arith))))

  -- For the number of leaves of an RFC 6962 tree of at most 2 ^ 31 leaves and an index in range: if no
  -- message of the host after the first one is empty (announces 0 elements), then `call_get_merkle_leaf_hash` ends, with a
  -- hash or an error, for every root, and takes at most one message more than the number of elements
  -- that the first message announces.
  pub leaf_hash_ends :
      (t : Tree) (index : ℕ) (merkle_root : List ℕ) (dc : Dc)
      → IsMerkle t
      → count t ≤ 2 ^ 31
      → index < count t
      → All IsNonempty (drop 1 dc.inbox)
      → EndsWithin
          (announced_size dc.inbox + 1)
          (length dc.inbox)
          (call_get_merkle_leaf_hash sha merkle_root (count t) index dc)
  unfolding call_get_merkle_leaf_hash
  leaf_hash_ends t index r dc m small range full =
      let most = announced_size dc.inbox + 1 in
      let k = length dc.inbox - most in
      let fuel = suc (length dc.inbox) in
      Spends-EndsWithin most (length dc.inbox) (call_get_merkle_leaf_hash sha r (count t) index dc)
        (Spends-bind (leaf_proof_head sha r (count t) index) _ dc k _ _
          (leaf_proof_head-Spends r (count t) index dc k (omega arith))
          (λ head d0 (taken, size_eq, within).
            Spends-bind (proof_loop sha (count t) index head.1 fuel head.2 0 head.0) _ d0 k _ _
              (proof_loop-Spends t m small index range head.1 fuel head.2 0 head.0 d0 k
                (omega (arith, taken.0)) (rw taken.1 full) (omega arith)
                (omega (arith, taken.0, size_eq)))
              (λ hash d1 h1.
                Spends-bind (guard (bytes_eq r hash) 1) _ d1 k _ _
                  (guard-Spends 1 d1 k h1 (bytes_eq r hash)) (λ u d2 p2. rw p2.0 h1))))
