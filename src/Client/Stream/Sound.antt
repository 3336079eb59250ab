-- ===== src/Client/Stream/Sound.antt =====
-- What the callback of a streamed preimage has seen when the call succeeds.
use ledger_babylon_app.Common.{
  ℕ, zero, suc, ◌+◌, ◌-◌, ◌%◌, ◌^◌, ◌≤◌, ◌<◌, ◌≡◌, refl, sym, ap, ◌∙◌, subst, arith, List, [], ◌∷◌,
  ◌++◌, map, length, take, drop, length-take, length-drop, length-append, Option, sub_size,
  size_mod,
}
use mathlib.Core.List.{foldl, flatten}
use ledger_babylon_app.Buffer.{Buffer, buffer_create, buffer_get_cur}
use ledger_babylon_app.Merkle.{Sha256}
use ledger_babylon_app.Client.{Dc, Res, ok, >>=-eq-ok}
use ledger_babylon_app.Client.Valid.{return-ok}
use ledger_babylon_app.Client.Preimage.{more_bytes, preimage_head}
use ledger_babylon_app.Client.Preimage.Loop.{more_bytes-ok}
use ledger_babylon_app.Client.Preimage.Heads.{opening, closing}
use ledger_babylon_app.Client.Preimage.Sound.{drop_one-append, from_pred}
use ledger_babylon_app.Client.Stream.{announce, stream_loop, call_stream_preimage}

-- The bytes of a buffer that has not been read from.
abbrev pub contents : Buffer → List ℕ
contents b = take b.size b.ptr

-- The state after the callback has had the buffers.
unfoldable pub feed : {S : Type 0} → (Buffer → S → S) → List Buffer → S → S
feed callback [] s = s
feed callback (b ∷ rest) s = feed callback rest (callback b s)

ok-injective : {A : Type 0} {a b : A} {d e : Dc} → ◌≡◌ {A = Res A × Dc} (ok a, d) (ok b, e) → a ≡ b
ok-injective h = cc

small : (v : ℕ) → v % 2 ^ 32 < size_mod
small v = omega arith

skip_one : (k len : ℕ) → 0 < k → k ≤ len → len < size_mod → sub_size k 1 ≡ k - 1
skip_one k len p h b = omega arith

module _ (sha : Sha256) {S : Type 0} (callback : Buffer → S → S) where
  -- What the loop has done when it ends.
  record Streamed (missing : ℕ) (ctx ctx' : sha.Context) (s s' : S) : Type 0 where
    buffers : List Buffer
    hashed : foldl sha.update ctx (map contents buffers) ≡ ctx'
    total : length (flatten (map contents buffers)) ≡ missing
    fed : feed callback buffers s ≡ s'

  loop-Streamed :
      (fuel missing : ℕ) (ctx : sha.Context) (s : S) (dc d : Dc) {ctx' : sha.Context} {s' : S}
      → stream_loop sha callback fuel missing ctx s dc ≡ (ok (ctx', s'), d)
      → Streamed missing ctx ctx' s s'
  unfolding stream_loop flatten feed
  loop-Streamed zero missing ctx s dc d e = cc
  loop-Streamed (suc fuel) zero ctx s dc d e =
      let (same, state) = return-ok (ctx, s) dc e in
      record { buffers = []; hashed = ap (λ p. p.0) same; total = refl; fed = ap (λ p. p.1) same }
  loop-Streamed (suc fuel) (suc rest) ctx s dc d e =
      let (n, s0, a0, e1) = >>=-eq-ok (more_bytes 5 (suc rest)) _ dc e in
      let (v0, room, second, most) = more_bytes-ok 5 (suc rest) dc a0 in
      let r = s0.read_buffer in
      let buffer = buffer_create (buffer_get_cur r) n in
      let size : length (contents buffer) ≡ n =
        omega (arith, length-take n (drop r.offset r.ptr), length-drop r.offset r.ptr) in
      let more =
        loop-Streamed fuel (suc rest - n) (sha.update ctx (contents buffer)) (callback buffer s) s0
          d e1 in
      record {
        buffers = buffer ∷ more.buffers;
        hashed = more.hashed;
        total =
            length-append (contents buffer) (flatten (map contents more.buffers))
            ∙ omega (arith, size, more.total);
        fed = more.fed;
      }

  -- If `call_stream_preimage` returns `n` and the first message of the host held at least one byte of
  -- the preimage, then there are `n + 1` bytes with the hash asked for, and the buffers that the
  -- callback was given, one after the other and after the length was announced, hold exactly those
  -- bytes but the first; whatever the host sends.
  pub stream_preimage_sound :
      (hash : List ℕ) (len_callback : Option (ℕ → S → S)) (s s' : S) (n len partial : ℕ)
      (dc d0 d : Dc)
      → preimage_head sha hash dc ≡ (ok (len, partial), d0)
      → 0 < partial
      → call_stream_preimage sha callback hash len_callback s dc ≡ (ok (n, s'), d)
      → (m : List ℕ) × (buffers : List Buffer) × (sha.sha256 m ≡ hash)
        × (length m ≡ n + 1)
        × (flatten (map contents buffers) ≡ drop 1 m)
        × (feed callback buffers (announce len_callback n s) ≡ s')
  unfolding call_stream_preimage flatten feed
  stream_preimage_sound hash len_callback s s' n len' partial' dc d0 d first_head some e =
      let (head, s0, (a0, size), positive, fits, e1) = opening sha _ hash dc d e in
      let len = head.0 % 2 ^ 32 in
      let r = s0.read_buffer in
      let first = take head.1 (buffer_get_cur r) in
      let skipped = buffer_create (drop 1 (buffer_get_cur r)) (sub_size head.1 1) in
      let given = callback skipped (announce len_callback (len - 1) s) in
      let (end, s3, a3, e4) =
        >>=-eq-ok
          (stream_loop sha callback (suc (length dc.inbox)) (len - head.1)
            (sha.update sha.init first) given)
          _ s0 e1 in
      let rest =
        loop-Streamed (suc (length dc.inbox)) (len - head.1) (sha.update sha.init first) given s0 s3
          a3 in
      let (equal, same5) = closing sha end.0 hash 9 (len - 1, end.1) s3 d e4 in
      let same_head : head.1 ≡ partial' = ap (λ p. p.1) (ok-injective (sym a0 ∙ first_head)) in
      let some_bytes : 0 < head.1 = subst (λ k. 0 < k) (sym same_head) some in
      let tail = flatten (map contents rest.buffers) in
      let count : length (first ++ tail) ≡ len =
        length-append first tail ∙ omega (arith, size, rest.total, fits) in
      let same_len : len - 1 ≡ n = ap (λ p. p.0) same5 in
      let element : contents skipped ≡ take (head.1 - 1) (drop 1 (buffer_get_cur r)) =
        ap (λ k. take k (drop 1 (buffer_get_cur r)))
          (skip_one head.1 len some_bytes (fits) (small head.0)) in
      (
        first ++ tail,
        skipped ∷ rest.buffers,
        sym (sha.digest_lem (first ∷ map contents rest.buffers))
            ∙ ap sha.digest rest.hashed
            ∙ equal,
        count ∙ from_pred len n same_len positive,
        ap (λ t. t ++ tail) element
            ∙ sym (drop_one-append (buffer_get_cur r) head.1 tail size some_bytes),
        ap (λ k. feed callback rest.buffers (callback skipped (announce len_callback k s)))
              (sym same_len)
            ∙ rest.fed
            ∙ ap (λ p. p.1) same5,
      )
