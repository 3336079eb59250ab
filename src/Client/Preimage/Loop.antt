-- ===== src/Client/Preimage/Loop.antt =====
-- The loop over the host's messages: what has been hashed, and what has been written.
use ledger_babylon_app.Common.{
  ℕ, zero, suc, ◌+◌, ◌-◌, ◌*◌, ◌≤◌, ◌≡◌, refl, sym, ap, ◌∙◌, subst, arith, List, [], ◌∷◌, ◌++◌,
  length, take, drop, leb, ◌==◌, ==_iff, leb→le, length-take, length-drop, length-append,
  append_assoc, append-nil, take-append_add, take-append,
}
use mathlib.Core.List.{foldl, flatten}
use ledger_babylon_app.Buffer.{Buffer, buffer_write_bytes, buffer_get_cur, memmove_at}
use ledger_babylon_app.Buffer.Bounds.{IsValid}
use ledger_babylon_app.Buffer.Lengths.{length-memmove_at}
use ledger_babylon_app.Buffer.Contents.{write_bytes-eq}
use ledger_babylon_app.Merkle.{Sha256}
use ledger_babylon_app.Client.{Dc, ok, >>=-eq-ok, guard, interrupt, read_u8, can_read}
use ledger_babylon_app.Client.Valid.{
  read_u8-advances, interrupt-Unread, read_u8-ok, can_read-ok, guard-ok, return-ok,
}
use ledger_babylon_app.Client.Preimage.{more_bytes, preimage_loop}

-- A message with more bytes holds those that it announces, no more than are missing.
pub more_bytes-ok :
    (c missing : ℕ) (dc : Dc) {n : ℕ} {d : Dc}
    → more_bytes c missing dc ≡ (ok n, d)
    → IsValid d.read_buffer
      × (d.read_buffer.offset + n ≤ d.read_buffer.size)
      × (d.read_buffer.offset ≡ 2)
      × (n ≤ missing)
unfolding more_bytes
more_bytes-ok c missing dc {n} {d} e =
    let (u0, s0, a0, e1) = >>=-eq-ok (interrupt (0xa0 ∷ []) c) _ dc e in
    let (fresh, start) = interrupt-Unread (0xa0 ∷ []) c dc a0 in
    let (n', s1, a1, e2) = >>=-eq-ok (read_u8 (c + 1)) _ s0 e1 in
    let v1 = read_u8-ok (c + 1) s0 fresh a1 in
    let (len, s2, a2, e3) = >>=-eq-ok (read_u8 (c + 1)) _ s1 e2 in
    let v2 = read_u8-ok (c + 1) s1 v1 a2 in
    let second : s2.read_buffer.offset ≡ 2 =
      omega
        (arith, start, read_u8-advances (c + 1) s0 fresh a1, read_u8-advances (c + 1) s1 v1 a2) in
    let (u3, s3, a3, e4) = >>=-eq-ok (can_read (n' * len) (c + 1)) _ s2 e3 in
    let (same3, room) = can_read-ok (n' * len) (c + 1) s2 v2 a3 in
    let (u4, s4, a4, e5) = >>=-eq-ok (guard (len == 1) (c + 2)) _ s3 e4 in
    let (single, same4) = guard-ok (len == 1) (c + 2) s3 a4 in
    let (u5, s5, a5, e6) = >>=-eq-ok (guard (leb n' missing) (c + 3)) _ s4 e5 in
    let (bound, same5) = guard-ok (leb n' missing) (c + 3) s4 a5 in
    let (same6, same7) = return-ok n' s5 e6 in
    let state : s2 ≡ d = same3 ∙ same4 ∙ same5 ∙ same7 in
    let one : len ≡ 1 = (==_iff len 1).0 single in
    let room' : s2.read_buffer.offset + n ≤ s2.read_buffer.size =
      omega (arith, ap (λ t. n' * t) one, same6) in
    let most : n ≤ missing = subst (λ k. k ≤ missing) same6 (leb→le n' missing bound) in
    subst
      (λ s.
        IsValid s.read_buffer
        × (s.read_buffer.offset + n ≤ s.read_buffer.size)
        × (s.read_buffer.offset ≡ 2)
        × (n ≤ missing))
      state (v2, room', second, most)

-- From `b` to `b'` the array before the cursor grows by `bs`, if there is room.
abbrev pub Grown : Buffer → Buffer → List ℕ → Type 0
Grown b b' bs =
    IsValid b
    → b.offset + length bs ≤ b.size
    → IsValid b'
      × (b'.offset ≡ b.offset + length bs)
      × (b'.size ≡ b.size)
      × (take b'.offset b'.ptr ≡ take b.offset b.ptr ++ bs)

pub Grown-refl : (b : Buffer) → Grown b b []
Grown-refl b v h = (v, omega arith, refl, sym (append-nil (take b.offset b.ptr)))

pub Grown-write : (b : Buffer) (bs : List ℕ) → Grown b (buffer_write_bytes b bs).1 bs
Grown-write b bs v h = rw (write_bytes-eq bs v h) (
  omega (arith, length-memmove_at b.ptr b.offset bs),
  refl,
  refl,
  ap (λ k. take (k + length bs) (memmove_at b.ptr b.offset bs)) (sym before)
      ∙ take-append_add (take b.offset b.ptr) (bs ++ drop (b.offset + length bs) b.ptr) (length bs)
      ∙ ap (λ t. take b.offset b.ptr ++ t)
          (take-append bs (drop (b.offset + length bs) b.ptr) (length bs) refl),
)
  where
    before : length (take b.offset b.ptr) ≡ b.offset
    before = omega (arith, length-take b.offset b.ptr)

pub Grown-trans :
    (a b c : Buffer) (xs ys : List ℕ) → Grown a b xs → Grown b c ys → Grown a c (xs ++ ys)
Grown-trans a b c xs ys g f v h =
    let total = length-append xs ys in
    let (v1, o1, s1, t1) = g v (omega (arith, total)) in
    let (v2, o2, s2, t2) = f v1 (omega (arith, total, o1, s1)) in
    (
      v2,
      omega (arith, total, o1, o2),
      s2 ∙ s1,
      t2 ∙ ap (λ t. t ++ ys) t1 ∙ append_assoc (take a.offset a.ptr) xs ys,
    )

module _ (sha : Sha256) (c : ℕ) (data_ptr : Buffer → List ℕ) where
  -- What the loop has done when it ends: the missing bytes were hashed in chunks, and where it writes
  -- the bytes that it hashes the output has grown by them.
  pub record Done (missing : ℕ) (ctx ctx' : sha.Context) (b b' : Buffer) : Type 0 where
    pub chunks : List (List ℕ)
    pub hashed : foldl sha.update ctx chunks ≡ ctx'
    pub total : length (flatten chunks) ≡ missing
    pub wrote :
        ((r : Buffer) → r.offset ≡ 2 → data_ptr r ≡ buffer_get_cur r) → Grown b b' (flatten chunks)

  pub loop-Done :
      (fuel missing : ℕ) (ctx : sha.Context) (b : Buffer) (dc d : Dc) {ctx' : sha.Context}
      {b' : Buffer}
      → preimage_loop sha c data_ptr fuel missing ctx b dc ≡ (ok (ctx', b'), d)
      → Done missing ctx ctx' b b'
  unfolding preimage_loop flatten
  loop-Done zero missing ctx b dc d e = cc
  loop-Done (suc fuel) zero ctx b dc d {ctx'} {b'} e =
      let (same, state) = return-ok (ctx, b) dc e in
      record {
        chunks = [];
        hashed = ap (λ p. p.0) same;
        total = refl;
        wrote = λ h. subst (λ x. Grown b x []) (ap (λ p. p.1) same) (Grown-refl b);
      }
  loop-Done (suc fuel) (suc rest) ctx b dc d {ctx'} {b'} e =
      let (n, s0, a0, e1) = >>=-eq-ok (more_bytes c (suc rest)) _ dc e in
      let (v0, room, second, most) = more_bytes-ok c (suc rest) dc a0 in
      let r = s0.read_buffer in
      let chunk = take n (buffer_get_cur r) in
      let put = take n (data_ptr r) in
      let size : length chunk ≡ n =
        omega (arith, length-take n (drop r.offset r.ptr), length-drop r.offset r.ptr) in
      let more =
        loop-Done fuel (suc rest - n) (sha.update ctx chunk) (buffer_write_bytes b put).1 s0 d e1 in
      record {
        chunks = chunk ∷ more.chunks;
        hashed = more.hashed;
        total = length-append chunk (flatten more.chunks) ∙ omega (arith, size, more.total);
        wrote = λ h.
            Grown-trans b (buffer_write_bytes b put).1 b' chunk (flatten more.chunks)
              (subst (λ x. Grown b (buffer_write_bytes b (take n x)).1 chunk) (sym (h r second))
                (Grown-write b chunk))
              (more.wrote h);
      }
