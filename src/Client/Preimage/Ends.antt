-- ===== src/Client/Preimage/Ends.antt =====
-- The preimage calls end when the host sends no empty messages: each turn of the loop takes one message,
-- and at least one of the bytes that remain.
use ledger_babylon_app.Common.{
  ℕ, zero, suc, ◌+◌, ◌-◌, ◌*◌, ◌%◌, ◌^◌, ◌≤◌, ◌<◌, ◌≡◌, refl, arith, List, [], ◌∷◌, not, ◌||◌, leb,
  ◌==◌, length, drop, bytes_eq, All, leb→le, ◌∙◌, subst, sym,
}
use ledger_babylon_app.Buffer.{Buffer, buffer_get_cur}
use ledger_babylon_app.Merkle.{Sha256}
use ledger_babylon_app.Client.{Dc, guard, interrupt, read_u8, read_varint, can_read}
use ledger_babylon_app.Client.Preimage.{
  more_bytes, preimage_loop, preimage_head, call_get_preimage, call_get_merkle_preimage,
}
use ledger_babylon_app.Client.Preimage.Heads.{both_positive}
use ledger_babylon_app.Client.Spends.{
  EndsWithin, IsNonempty, Spends, Spends-EndsWithin, Spends-bind, interrupt-Spends, read_u8-Spends,
  read_varint-Spends, can_read-Spends, guard-Spends, announced, FirstTaken, Taken-FirstTaken,
}

-- A message more, with at least one byte and no more than remain; those to come are not empty either.
abbrev pub More : Dc → ℕ → ℕ → Dc → Type 0
More dc rest n d =
    (1 ≤ n) × (n ≤ rest) × (suc (length d.inbox) ≡ length dc.inbox) × All IsNonempty d.inbox

module _ (c : ℕ) where
  pub more_bytes-Spends :
      (rest : ℕ) (dc : Dc) (k : ℕ)
      → k ≤ length dc.inbox - 1
      → All IsNonempty dc.inbox
      → Spends (more_bytes c rest dc) k (More dc rest)
  unfolding more_bytes
  more_bytes-Spends rest dc k h full =
      Spends-bind (interrupt (0xa0 ∷ []) c) _ dc k _ _ (interrupt-Spends (0xa0 ∷ []) c dc k h)
        (λ u d0 taken.
          let (later, some_bytes) = announced dc.inbox d0 full taken in
          let h0 : k ≤ length d0.inbox = omega arith in
          Spends-bind (read_u8 (c + 1)) _ d0 k _ _ (read_u8-Spends (c + 1) d0 k h0) (λ n d1 p1.
            let h1 : k ≤ length d1.inbox = rw p1.0 h0 in
            Spends-bind (read_u8 (c + 1)) _ d1 k _ _ (read_u8-Spends (c + 1) d1 k h1) (λ l d2 p2.
              let h2 : k ≤ length d2.inbox = rw p2.0 h1 in
              Spends-bind (can_read (n * l) (c + 1)) _ d2 k _ _
                (can_read-Spends (c + 1) d2 k h2 (n * l))
                (λ v d3 p3.
                  let h3 : k ≤ length d3.inbox = rw p3 h2 in
                  Spends-bind (guard (l == 1) (c + 2)) _ d3 k _ _
                    (guard-Spends (c + 2) d3 k h3 (l == 1))
                    (λ w d4 p4.
                      let h4 : k ≤ length d4.inbox = rw p4.0 h3 in
                      Spends-bind (guard (leb n rest) (c + 3)) _ d4 k _ _
                        (guard-Spends (c + 3) d4 k h4 (leb n rest))
                        (λ x d5 p5.
                          let same = p5.0 ∙ p4.0 ∙ p3 ∙ p2.0 ∙ p1.0 in
                          (
                            subst (λ i. 1 ≤ i) (sym p1.1) (some_bytes p1.2),
                            leb→le n rest p5.1,
                            rw same later.0,
                            rw same later.1,
                          )))))))

  module _ (sha : Sha256) (data_ptr : Buffer → List ℕ) where
    preimage_loop-Spends :
        (fuel rest : ℕ) (ctx : sha.Context) (out : Buffer) (dc : Dc) (k : ℕ)
        → length dc.inbox < fuel
        → All IsNonempty dc.inbox
        → k ≤ length dc.inbox - rest
        → Spends (preimage_loop sha c data_ptr fuel rest ctx out dc) k (λ end d. k ≤ length d.inbox)
    unfolding preimage_loop
    preimage_loop-Spends zero rest ctx out dc k f full h = absurd (omega arith)
    preimage_loop-Spends (suc fuel) zero ctx out dc k f full h = omega arith
    preimage_loop-Spends (suc fuel) (suc rest) ctx out dc k f full h =
        Spends-bind (more_bytes c (suc rest)) _ dc k _ _
          (more_bytes-Spends (suc rest) dc k (omega arith) full)
          (λ n d (some_bytes, within, one, later).
            preimage_loop-Spends fuel (suc rest - n) _ _ d k (omega arith) later (omega arith))

module _ (sha : Sha256) where
  -- The head takes the first message.
  pub preimage_head-Spends :
      (hash : List ℕ) (dc : Dc) (k : ℕ)
      → k ≤ length dc.inbox - 1
      → Spends (preimage_head sha hash dc) k (λ head d. FirstTaken dc.inbox d)
  unfolding preimage_head
  preimage_head-Spends hash dc k h =
      Spends-bind (interrupt (0x40 ∷ 0x00 ∷ hash) 1) _ dc k _ _
        (interrupt-Spends (0x40 ∷ 0x00 ∷ hash) 1 dc k h)
        (λ u d0 taken.
          let h0 : k ≤ length d0.inbox =
            omega (arith, (Taken-FirstTaken dc.inbox d0 d0 taken refl).0) in
          Spends-bind (read_varint 2) _ d0 k _ _ (read_varint-Spends 2 d0 k h0) (λ n d1 p1.
            let h1 : k ≤ length d1.inbox = rw p1 h0 in
            Spends-bind (read_u8 2) _ d1 k _ _ (read_u8-Spends 2 d1 k h1) (λ l d2 p2.
              let h2 : k ≤ length d2.inbox = rw p2.0 h1 in
              Spends-bind (can_read l 2) _ d2 k _ _ (can_read-Spends 2 d2 k h2 l)
                (λ v d3 p3. Taken-FirstTaken dc.inbox d0 d3 taken (p3 ∙ p2.0 ∙ p1)))))

  -- If no message of the host after the first one is empty (announces 0 bytes), then
  -- `call_get_preimage` ends, with a
  -- result or an error, and takes no more than 2^32 messages, however many the host would send.
  pub get_preimage_ends :
      (hash out : List ℕ) (dc : Dc)
      → All IsNonempty (drop 1 dc.inbox)
      → EndsWithin (2 ^ 32) (length dc.inbox) (call_get_preimage sha hash out dc)
  unfolding call_get_preimage
  get_preimage_ends hash out dc full =
      let k = length dc.inbox - 2 ^ 32 in
      Spends-EndsWithin (2 ^ 32) (length dc.inbox) (call_get_preimage sha hash out dc) (
        Spends-bind (preimage_head sha hash) _ dc k _ _
          (preimage_head-Spends hash dc k (omega arith))
          (λ head d0 taken.
            let len = head.0 % 2 ^ 32 in
            let short : len < 2 ^ 32 = omega arith in
            let h0 : k ≤ length d0.inbox = omega (arith, taken.0) in
            Spends-bind (guard (leb 1 len) 3) _ d0 k _ _ (guard-Spends 3 d0 k h0 (leb 1 len))
              (λ u d1 p1.
                let h1 : k ≤ length d1.inbox = rw p1.0 h0 in
                Spends-bind (guard (leb head.1 len) 4) _ d1 k _ _
                  (guard-Spends 4 d1 k h1 (leb head.1 len))
                  (λ v d2 p2.
                    let same = p2.0 ∙ p1.0 in
                    Spends-bind
                      (preimage_loop sha 5 buffer_get_cur (suc (length dc.inbox)) (len - head.1) _
                        _)
                      _ d2 k _ _
                      (preimage_loop-Spends 5 sha buffer_get_cur (suc (length dc.inbox))
                        (len - head.1) _ _ d2 k (rw same (omega (arith, taken.0)))
                        (rw (same, taken.1) full) (rw same (omega (arith, taken.0))))
                      (λ end d3 h3.
                        Spends-bind (guard (bytes_eq (sha.digest end.0) hash) 9) _ d3 k _ _
                          (guard-Spends 9 d3 k h3 (bytes_eq (sha.digest end.0) hash))
                          (λ w d4 p4. rw p4.0 h3))))))

  -- If no message of the host after the first one is empty (announces 0 bytes), then
  -- `call_get_merkle_preimage` ends, with
  -- a result or an error, and takes at most one message more than the output array has bytes.
  pub get_merkle_preimage_ends :
      (hash out : List ℕ) (dc : Dc)
      → All IsNonempty (drop 1 dc.inbox)
      → EndsWithin (length out + 1) (length dc.inbox) (call_get_merkle_preimage sha hash out dc)
  unfolding call_get_merkle_preimage
  get_merkle_preimage_ends hash out dc full =
      let k = length dc.inbox - (length out + 1) in
      Spends-EndsWithin (length out + 1) (length dc.inbox)
        (call_get_merkle_preimage sha hash out dc)
        (Spends-bind (preimage_head sha hash) _ dc k _ _
          (preimage_head-Spends hash dc k (omega arith))
          (λ head d0 taken.
            let len = head.0 in
            let present = not (len == 0 || head.1 == 0) in
            let h0 : k ≤ length d0.inbox = omega (arith, taken.0) in
            Spends-bind (guard present 3) _ d0 k _ _ (guard-Spends 3 d0 k h0 present) (λ u d1 p1.
              let h1 : k ≤ length d1.inbox = rw p1.0 h0 in
              Spends-bind (guard (leb (len - 1) (length out)) 4) _ d1 k _ _
                (guard-Spends 4 d1 k h1 (leb (len - 1) (length out)))
                (λ v d2 p2.
                  let h2 : k ≤ length d2.inbox = rw p2.0 h1 in
                  Spends-bind (guard (leb head.1 len) 5) _ d2 k _ _
                    (guard-Spends 5 d2 k h2 (leb head.1 len))
                    (λ w d3 p3.
                      let same = p3.0 ∙ p2.0 ∙ p1.0 in
                      let (some_len, some_bytes) = both_positive len head.1 p1.1 in
                      let room = leb→le (len - 1) (length out) p2.1 in
                      let data_ptr = λ (b : Buffer). drop d3.read_buffer.offset b.ptr in
                      let fuel = suc (length dc.inbox) in
                      Spends-bind (preimage_loop sha 6 data_ptr fuel (len - head.1) _ _) _ d3 k _ _
                        (preimage_loop-Spends 6 sha data_ptr fuel (len - head.1) _ _ d3 k
                          (rw same (omega (arith, taken.0))) (rw (same, taken.1) full)
                          (rw same (omega (arith, taken.0))))
                        (λ end d4 h4.
                          Spends-bind (guard (bytes_eq (sha.digest end.0) hash) 10) _ d4 k _ _
                            (guard-Spends 10 d4 k h4 (bytes_eq (sha.digest end.0) hash))
                            (λ x d5 p5. rw p5.0 h4)))))))
