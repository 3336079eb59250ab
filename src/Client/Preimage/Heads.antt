-- ===== src/Client/Preimage/Heads.antt =====
-- How the preimage calls begin and end: the head of the first message, and the comparison of hashes.
use ledger_babylon_app.Common.{
  true, ℕ, ◌+◌, ◌-◌, ◌%◌, ◌^◌, ◌≤◌, ◌<◌, ◌≡◌, ap, ◌∙◌, subst, arith, List, ◌∷◌, length, take, drop,
  leb, ◌==◌, leb→le, not, ◌||◌, length-take, length-drop, bytes_eq, bytes_eq_sound,
}
use ledger_babylon_app.Buffer.{buffer_get_cur}
use ledger_babylon_app.Buffer.Bounds.{IsValid}
use ledger_babylon_app.Merkle.{Sha256}
use ledger_babylon_app.Client.{
  Dc, M, ok, ◌>>=◌, ◌>>◌, return, >>=-eq-ok, guard, interrupt, read_u8, read_varint, can_read,
}
use ledger_babylon_app.Client.Valid.{
  interrupt-Unread, read_u8-ok, read_varint-ok, can_read-ok, guard-ok, return-ok,
}
use ledger_babylon_app.Client.Preimage.{preimage_head}

pub both_positive : (a b : ℕ) → not (a == 0 || b == 0) ≡ true → (0 < a) × (0 < b)
both_positive a b h = ground arith

module _ (sha : Sha256) where
  -- The first message holds the bytes that it announces.
  pub preimage_head-ok :
      (hash : List ℕ) (dc : Dc) {r : ℕ × ℕ} {d : Dc}
      → preimage_head sha hash dc ≡ (ok r, d)
      → IsValid d.read_buffer × (d.read_buffer.offset + r.1 ≤ d.read_buffer.size)
  unfolding preimage_head
  preimage_head-ok hash dc {r} {d} e =
      let (u0, s0, a0, e1) = >>=-eq-ok (interrupt (0x40 ∷ 0x00 ∷ hash) 1) _ dc e in
      let (fresh, start) = interrupt-Unread (0x40 ∷ 0x00 ∷ hash) 1 dc a0 in
      let (len, s1, a1, e2) = >>=-eq-ok (read_varint 2) _ s0 e1 in
      let v1 = read_varint-ok 2 s0 fresh a1 in
      let (partial, s2, a2, e3) = >>=-eq-ok (read_u8 2) _ s1 e2 in
      let v2 = read_u8-ok 2 s1 v1 a2 in
      let (u3, s3, a3, e4) = >>=-eq-ok (can_read partial 2) _ s2 e3 in
      let (same3, room) = can_read-ok partial 2 s2 v2 a3 in
      let (same4, same5) = return-ok (len, partial) s3 e4 in
      subst (λ x. IsValid d.read_buffer × (d.read_buffer.offset + x.1 ≤ d.read_buffer.size)) same4
        (subst (λ s. IsValid s.read_buffer × (s.read_buffer.offset + partial ≤ s.read_buffer.size))
          (same3 ∙ same5) (v2, room))

  pub length-first :
      (d : Dc) (partial : ℕ)
      → IsValid d.read_buffer
      → d.read_buffer.offset + partial ≤ d.read_buffer.size
      → length (take partial (buffer_get_cur d.read_buffer)) ≡ partial
  length-first d partial v h =
      let r = d.read_buffer in
      omega (arith, length-take partial (drop r.offset r.ptr), length-drop r.offset r.ptr)

  -- The first message has been read: the length and the partial length, and the bytes are there.
  abbrev pub Head : List ℕ → Dc → ℕ × ℕ → Dc → Type 0
  Head hash dc head s =
      (preimage_head sha hash dc ≡ (ok head, s))
      × (length (take head.1 (buffer_get_cur s.read_buffer)) ≡ head.1)

  -- The calls that take a length of 32 bits.
  pub opening :
      {B : Type 0} (K : ℕ × ℕ → M B) (hash : List ℕ) (dc d : Dc) {b : B}
      → (preimage_head sha hash >>= (λ head.
            guard (leb 1 (head.0 % 2 ^ 32)) 3
            >> (guard (leb head.1 (head.0 % 2 ^ 32)) 4 >> K head)))
          dc
        ≡ (ok b, d)
      → (head : ℕ × ℕ) × (s : Dc) × Head hash dc head s
        × (1 ≤ head.0 % 2 ^ 32)
        × (head.1 ≤ head.0 % 2 ^ 32)
        × (K head s ≡ (ok b, d))
  opening K hash dc d e =
      let (head, s0, a0, e1) = >>=-eq-ok (preimage_head sha hash) _ dc e in
      let (v0, room) = preimage_head-ok hash dc a0 in
      let len = head.0 % 2 ^ 32 in
      let (u1, s1, a1, e2) = >>=-eq-ok (guard (leb 1 len) 3) _ s0 e1 in
      let (positive, same1) = guard-ok (leb 1 len) 3 s0 a1 in
      let (u2, s2, a2, e3) = >>=-eq-ok (guard (leb head.1 len) 4) _ s1 e2 in
      let (fits, same2) = guard-ok (leb head.1 len) 4 s1 a2 in
      (
        head,
        s0,
        (a0, length-first s0 head.1 v0 room),
        leb→le 1 len positive,
        leb→le head.1 len fits,
        ap (λ s. K head s) (same1 ∙ same2) ∙ e3,
      )

  -- The call that takes an element of a Merkle tree, with room for `most` bytes.
  pub element_opening :
      {B : Type 0} (K : ℕ × ℕ → M B) (most : ℕ) (hash : List ℕ) (dc d : Dc) {b : B}
      → (preimage_head sha hash >>= (λ head.
            guard (not (head.0 == 0 || head.1 == 0)) 3
            >> (guard (leb (head.0 - 1) most) 4 >> (guard (leb head.1 head.0) 5 >> K head))))
          dc
        ≡ (ok b, d)
      → (head : ℕ × ℕ) × (s : Dc) × Head hash dc head s
        × (0 < head.0)
        × (0 < head.1)
        × (head.0 - 1 ≤ most)
        × (head.1 ≤ head.0)
        × (K head s ≡ (ok b, d))
  element_opening K most hash dc d e =
      let (head, s0, a0, e1) = >>=-eq-ok (preimage_head sha hash) _ dc e in
      let (v0, room) = preimage_head-ok hash dc a0 in
      let present = not (head.0 == 0 || head.1 == 0) in
      let (u1, s1, a1, e2) = >>=-eq-ok (guard present 3) _ s0 e1 in
      let (nonzero, same1) = guard-ok present 3 s0 a1 in
      let (positive, some_bytes) = both_positive head.0 head.1 nonzero in
      let (u2, s2, a2, e3) = >>=-eq-ok (guard (leb (head.0 - 1) most) 4) _ s1 e2 in
      let (long, same2) = guard-ok (leb (head.0 - 1) most) 4 s1 a2 in
      let (u3, s3, a3, e4) = >>=-eq-ok (guard (leb head.1 head.0) 5) _ s2 e3 in
      let (fits, same3) = guard-ok (leb head.1 head.0) 5 s2 a3 in
      (
        head,
        s0,
        (a0, length-first s0 head.1 v0 room),
        positive,
        some_bytes,
        leb→le (head.0 - 1) most long,
        leb→le head.1 head.0 fits,
        ap (λ s. K head s) (same1 ∙ same2 ∙ same3) ∙ e4,
      )

  -- The end: what has been hashed has the hash asked for, and the value is returned.
  pub closing :
      {B : Type 0} (ctx : sha.Context) (hash : List ℕ) (c : ℕ) (v : B) (s d : Dc) {b : B}
      → (guard (bytes_eq (sha.digest ctx) hash) c >> return v) s ≡ (ok b, d)
      → (sha.digest ctx ≡ hash) × (v ≡ b)
  closing ctx hash c v s d e =
      let (u, s1, a, e1) = >>=-eq-ok (guard (bytes_eq (sha.digest ctx) hash) c) _ s e in
      let (equal, state) = guard-ok (bytes_eq (sha.digest ctx) hash) c s a in
      let (same, end) = return-ok v s1 e1 in (bytes_eq_sound _ _ equal, same)
