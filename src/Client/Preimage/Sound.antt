-- ===== src/Client/Preimage/Sound.antt =====
-- What the two preimage calls guarantee of the output.
use ledger_babylon_app.Common.{
  ap₂, ℕ, zero, suc, ◌+◌, ◌-◌, ◌%◌, ◌^◌, ◌≤◌, ◌<◌, ◌≡◌, refl, sym, ap, ◌∙◌, subst, arith, List, [],
  ◌∷◌, ◌++◌, length, take, drop, length-take, length-drop, length-append, size_mod,
}
use mathlib.Core.List.{flatten}
use ledger_babylon_app.Buffer.{Buffer, buffer_create, buffer_write_bytes, buffer_get_cur}
use ledger_babylon_app.Buffer.Bounds.{IsValid}
use ledger_babylon_app.Merkle.{Sha256}
use ledger_babylon_app.Client.{Dc, ok, >>=-eq-ok}
use ledger_babylon_app.Client.Preimage.{
  preimage_head, preimage_loop, call_get_preimage, call_get_merkle_preimage,
}
use ledger_babylon_app.Client.Preimage.Heads.{opening, element_opening, closing}
use ledger_babylon_app.Client.Preimage.Loop.{Grown, Grown-write, Grown-trans, loop-Done}

pub from_pred : (len n : ℕ) → len - 1 ≡ n → 0 < len → len ≡ n + 1
from_pred len n e h = omega arith

bound_zero : (n k : ℕ) → n ≤ k → 0 + n ≤ k
bound_zero n k h = omega arith

total_zero : (k n : ℕ) → k ≡ n → 0 + k ≡ n
total_zero k n e = omega arith

fresh-IsValid : (out : List ℕ) → length out < size_mod → IsValid (buffer_create out (length out))
fresh-IsValid out h = omega arith

-- The bytes of a first message but the first one.
length-element :
    (xs : List ℕ) (n : ℕ) → length (take n xs) ≡ n → length (take (n - 1) (drop 1 xs)) ≡ n - 1
length-element xs n h =
    omega (arith, length-take n xs, length-take (n - 1) (drop 1 xs), length-drop 1 xs)

pub drop_one-append :
    (xs : List ℕ) (n : ℕ) (ys : List ℕ)
    → length (take n xs) ≡ n
    → 0 < n
    → drop 1 (take n xs ++ ys) ≡ take (n - 1) (drop 1 xs) ++ ys
drop_one-append [] zero ys e h = absurd (omega arith)
drop_one-append [] (suc n) ys e h = absurd (omega arith)
drop_one-append (x ∷ xs) zero ys e h = absurd (omega arith)
drop_one-append (x ∷ xs) (suc n) ys e h =
    ap (λ k. take k xs ++ ys) (let q : n ≡ suc n - 1 = omega arith in q)

module _ (sha : Sha256) where
  -- If `call_get_preimage` returns a length `n`, then there are `n` bytes with the hash asked for,
  -- and the output starts with exactly those bytes, if it has room for them; whatever the host sends.
  pub get_preimage_sound :
      (hash out out' : List ℕ) (n : ℕ) (dc d : Dc)
      → length out < size_mod
      → call_get_preimage sha hash out dc ≡ (ok (n, out'), d)
      → (m : List ℕ) × (sha.sha256 m ≡ hash) × (length m ≡ n) × (n ≤ length out → take n out' ≡ m)
  unfolding call_get_preimage flatten
  get_preimage_sound hash out out' n dc d small e =
      let (head, s0, (a0, size), some_bytes, fits, e1) = opening sha _ hash dc d e in
      let len = head.0 % 2 ^ 32 in
      let first = take head.1 (buffer_get_cur s0.read_buffer) in
      let empty = buffer_create out (length out) in
      let started = (buffer_write_bytes empty first).1 in
      let (end, s3, a3, e4) =
        >>=-eq-ok
          (preimage_loop sha 5 buffer_get_cur (suc (length dc.inbox)) (len - head.1)
            (sha.update sha.init first) started)
          _ s0 e1 in
      let done =
        loop-Done sha 5 buffer_get_cur (suc (length dc.inbox)) (len - head.1)
          (sha.update sha.init first) started s0 s3 a3 in
      let (equal, same5) = closing sha end.0 hash 9 (len, end.1.ptr) s3 d e4 in
      let m = first ++ flatten done.chunks in
      let count : length m ≡ len =
        length-append first (flatten done.chunks) ∙ omega (arith, size, done.total, fits) in
      let same_len : len ≡ n = ap (λ p. p.0) same5 in
      let same_out : end.1.ptr ≡ out' = ap (λ p. p.1) same5 in
      let valid : IsValid empty = omega arith in
      let grown : Grown empty end.1 m =
        Grown-trans empty started end.1 first (flatten done.chunks) (Grown-write empty first)
          (done.wrote (λ r h. refl)) in
      (
        m,
        sym (sha.digest_lem (first ∷ done.chunks)) ∙ ap sha.digest done.hashed ∙ equal,
        count ∙ same_len,
        λ h.
            let (v, offset, size', text) = grown valid (omega (arith, count, same_len)) in
            ap₂ take (sym (offset ∙ omega (arith, count, same_len))) (sym same_out) ∙ text,
      )

  -- If `call_get_merkle_preimage` returns a length `n`, then there are `n + 1` bytes with the hash
  -- asked for. If in the first message the bytes start at position 2 (a length in a single byte and
  -- the partial length stand before them), the output starts with those bytes but the first.
  pub get_merkle_preimage_sound :
      (hash out out' : List ℕ) (n : ℕ) (dc d : Dc)
      → length out < size_mod
      → call_get_merkle_preimage sha hash out dc ≡ (ok (n, out'), d)
      → (m : List ℕ) × (sha.sha256 m ≡ hash)
        × (length m ≡ n + 1)
        × (n ≤ length out)
        × ((preimage_head sha hash dc).1.read_buffer.offset ≡ 2 → take n out' ≡ drop 1 m)
  unfolding call_get_merkle_preimage flatten
  get_merkle_preimage_sound hash out out' n dc d small e =
      let (head, s0, (a0, size), positive, some_bytes, long, fits, e1) =
        element_opening sha _ (length out) hash dc d e in
      let len = head.0 in
      let r = s0.read_buffer in
      let first = take head.1 (buffer_get_cur r) in
      let empty = buffer_create out (length out) in
      let element = take (head.1 - 1) (drop 1 (buffer_get_cur r)) in
      let started = (buffer_write_bytes empty element).1 in
      let data_ptr = λ (b : Buffer). drop r.offset b.ptr in
      let (end, s4, a4, e5) =
        >>=-eq-ok
          (preimage_loop sha 6 data_ptr (suc (length dc.inbox)) (len - head.1)
            (sha.update sha.init first) started)
          _ s0 e1 in
      let done =
        loop-Done sha 6 data_ptr (suc (length dc.inbox)) (len - head.1) (sha.update sha.init first)
          started s0 s4 a4 in
      let (equal, same6) = closing sha end.0 hash 10 (len - 1, end.1.ptr) s4 d e5 in
      let same_len : len - 1 ≡ n = ap (λ p. p.0) same6 in
      let same_out : end.1.ptr ≡ out' = ap (λ p. p.1) same6 in
      let tail : List ℕ = flatten done.chunks in
      let count : length (first ++ tail) ≡ len =
        length-append first tail ∙ omega (arith, size, done.total, fits) in
      let total : length (element ++ tail) ≡ n =
        length-append element tail
        ∙ omega (
          arith,
          length-element (buffer_get_cur r) head.1 size,
          done.total,
          same_len,
          some_bytes,
          fits,
        ) in
      let bound : n ≤ length out = subst (λ k. k ≤ length out) same_len long in
      (
        first ++ tail,
        sym (sha.digest_lem (first ∷ done.chunks)) ∙ ap sha.digest done.hashed ∙ equal,
        count ∙ from_pred len n same_len positive,
        bound,
        λ h.
            let at : r.offset ≡ 2 = subst (λ p. p.1.read_buffer.offset ≡ 2) a0 h in
            let grown : Grown empty end.1 (element ++ tail) =
              Grown-trans empty started end.1 element tail (Grown-write empty element)
                (done.wrote (λ b q. ap (λ k. drop k b.ptr) (at ∙ sym q))) in
            let (v, offset, size', text) =
              grown (fresh-IsValid out small)
                (subst (λ k. 0 + k ≤ length out) (sym total) (bound_zero n (length out) bound)) in
            ap₂ take (sym (offset ∙ total_zero _ n total)) (sym same_out)
            ∙ text
            ∙ sym (drop_one-append (buffer_get_cur r) head.1 tail size some_bytes),
      )
