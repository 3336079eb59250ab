-- ===== src/Parser/Consolidate.antt =====
-- Moving what is left in both buffers to the start of the first one.
use ledger_babylon_app.Common.{
  ℕ, ◌+◌, ◌-◌, ◌≤◌, ◌<◌, ◌≡◌, refl, ap, ◌∙◌, arith, List, ◌++◌, true, false, ltb, take, drop,
  length, length-append, Bool-cases, inl, inr, ◌⊎◌, ltb→lt, take-append, take-append_add, ltb-false,
  add_size,
}
use ledger_babylon_app.Buffer.{memmove_at, buffer_get_cur}
use ledger_babylon_app.Buffer.Bounds.{IsValid}
use ledger_babylon_app.Buffer.Lengths.{length-memmove_at}
use ledger_babylon_app.Buffer.Contents.{contents, length-contents}
use ledger_babylon_app.Parser.{Buffers, left_in, parser_consolidate_buffers}
use ledger_babylon_app.Parser.Joined.{joined, AreValid, left_in-contents, total-joined}

moved_front : (p xs ys : List ℕ) → take (length xs) (memmove_at p 0 xs) ≡ xs
moved_front p xs ys = take-append xs (drop (0 + length xs) p) (length xs) refl

-- The array after both moves starts with the two parts.
both_moved :
    (p xs ys : List ℕ)
    → take (length xs + length ys) (memmove_at (memmove_at p 0 xs) (length xs) ys) ≡ xs ++ ys
both_moved p xs ys =
    let rest = drop (length xs + length ys) (memmove_at p 0 xs) in
    ap (λ t. take (length xs + length ys) (t ++ (ys ++ rest))) (moved_front p xs ys)
    ∙ take-append_add xs (ys ++ rest) (length ys)
    ∙ ap (λ t. xs ++ t) (take-append ys rest (length ys) refl)

length-both_moved :
    (p xs ys : List ℕ)
    → length xs + length ys ≤ length p
    → length (memmove_at (memmove_at p 0 xs) (length xs) ys) ≡ length p
length-both_moved p xs ys h =
    let first = length-memmove_at p 0 xs (omega arith) in
    length-memmove_at (memmove_at p 0 xs) (length xs) ys (omega (arith, first)) ∙ first

-- `parser_consolidate_buffers` succeeds exactly if what is left fits `max_size`; then, if the first
-- array has that many bytes, the first buffer is valid and holds all that was left in both, and the
-- second is as it was. Otherwise nothing changes.
pub consolidate_lem :
    (bs : Buffers) (max_size : ℕ)
    → AreValid bs
    → max_size ≤ length bs.0.ptr
    → let (done, bs') = parser_consolidate_buffers bs max_size in
      ((length (joined bs) ≤ max_size)
        × (done ≡ true)
        × (contents bs'.0 ≡ joined bs)
        × IsValid bs'.0
        × (bs'.1 ≡ bs.1))
      ⊎ ((max_size < length (joined bs)) × (parser_consolidate_buffers bs max_size ≡ (false, bs)))
unfolding parser_consolidate_buffers
consolidate_lem (b0, b1) max_size v room =
    let c0 = contents b0 in
    let c1 = contents b1 in
    let x0 : take (left_in b0) (buffer_get_cur b0) ≡ c0 =
      ap (λ k. take k (buffer_get_cur b0)) (omega (arith, v.first)) in
    let x1 : take (left_in b1) (buffer_get_cur b1) ≡ c1 =
      ap (λ k. take k (buffer_get_cur b1)) (omega (arith, v.second)) in
    let l0 : left_in b0 ≡ length c0 = left_in-contents v.first in
    let total : add_size (left_in b0) (left_in b1) ≡ length (c0 ++ c1) = total-joined v in
    let size : length (c0 ++ c1) ≡ length c0 + length c1 = length-append c0 c1 in
    let whole : length (c0 ++ c1) - 0 ≡ length c0 + length c1 = omega (arith, size) in
    elim (Bool-cases (ltb max_size (length (c0 ++ c1)))) [
      | inr fits ↦
          let le = ltb-false _ _ fits in
          inl (
            rw (total, fits, x0, x1, l0)
              (
                le,
                refl,
                ap (λ k. take k (memmove_at (memmove_at b0.ptr 0 c0) (length c0) c1)) whole
                    ∙ both_moved b0.ptr c0 c1,
                (record {
                  cursor = omega arith;
                  backed =
                      omega (arith, size, length-both_moved b0.ptr c0 c1 (omega (arith, size, le)));
                  small =
                      omega
                        (arith, size, length-contents v.first, length-contents v.second, v.small);
                }),
                refl,
              ))
      | inl long ↦ inr (rw (total, long) (ltb→lt _ _ long, refl))
    ]
