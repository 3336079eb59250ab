-- ===== src/Client/Map/Sorted.antt =====
-- What a map commitment that passes the check guarantees of the keys given to the callback.
use ledger_babylon_app.Common.{
  ℕ, zero, suc, ◌+◌, ◌≡◌, refl, sym, ap, ◌∙◌, subst, arith, Bool, List, [], ◌∷◌, ◌||◌, true, some,
  All, take, length, ◌==◌,
}
use ledger_babylon_app.Merkle.{Sha256}
use ledger_babylon_app.Client.{Dc, ok, >>=-eq-ok, guard}
use ledger_babylon_app.Client.Valid.{guard-ok, return-ok}
use ledger_babylon_app.Client.Map.{
  Callback, Sign, negative, same, positive, recode, run_callback, is_negative, compare_byte_arrays,
  call_get_merkle_leaf_element, check_loop, call_check_merkle_tree_sorted_with_callback,
}
use ledger_babylon_app.Client.Map.Order.{lex, compare_byte_arrays_lem, lex_trans}

-- The callback that collects the elements, the last one first.
abbrev pub collect : Callback (List (List ℕ))
collect s index element dc = (element ∷ s, dc)

-- Every element is greater than all that follow it in the list.
abbrev pub Descending : List (List ℕ) → Type 0
Descending [] = Unit {0}
Descending (y ∷ s) = All (λ x. lex x y ≡ negative) s × Descending s

All-below :
    (p y : List ℕ) (s : List (List ℕ))
    → lex p y ≡ negative
    → All (λ x. lex x p ≡ negative) s
    → All (λ x. lex x y ≡ negative) s
All-below p y [] h a = tt
All-below p y (x ∷ s) h (b, a) = (lex_trans x p y b h, All-below p y s h a)

only_negative : (s : Sign) → is_negative s ≡ true → s ≡ negative
unfolding is_negative
only_negative negative h = refl
only_negative same h = cc
only_negative positive h = cc

is_negative-lex : (a b : List ℕ) → is_negative (compare_byte_arrays a b) ≡ true → lex a b ≡ negative
is_negative-lex a b h =
    sym (compare_byte_arrays_lem a b) ∙ only_negative (compare_byte_arrays a b) h

later : (i : ℕ) (b : Bool) → ((i + 1 == 0) || b) ≡ true → b ≡ true
later i b h = ground arith

module _ (sha : Sha256) (scratch root : List ℕ) (size : ℕ) where
  check_loop-Descending :
      (n i : ℕ) (prev : List ℕ) (s : List (List ℕ)) (dc : Dc) {r : List (List ℕ)} {d : Dc}
      → Descending (prev ∷ s)
      → check_loop sha scratch root size (some collect) n (i + 1) prev (prev ∷ s) dc ≡ (ok r, d)
      → Descending r × (length r ≡ suc (length s) + n)
  unfolding check_loop run_callback
  check_loop-Descending zero i prev s dc {r} v e =
      let (equal, state) = return-ok (prev ∷ s) dc e in
      (subst Descending equal v, omega (arith, ap length equal))
  check_loop-Descending (suc n) i prev s dc {r} v e =
      let (got, d1, a1, e1) =
        >>=-eq-ok (recode 1 (call_get_merkle_leaf_element sha root size (i + 1) scratch)) _ dc e in
      let el = take got.0 got.1 in
      let (u, d2, a2, e2) =
        >>=-eq-ok (guard ((i + 1 == 0) || is_negative (compare_byte_arrays prev el)) 1) _ d1 e1 in
      let (test, state) = guard-ok _ 1 d1 a2 in
      let up = is_negative-lex prev el (later i _ test) in
      let (w, len) =
        check_loop-Descending n (i + 1) el (prev ∷ s) d2 ((up, All-below prev el s up v.0), v) e2 in
      (w, omega (arith, len))

  -- The first turn compares nothing.
  check_start :
      (n : ℕ) (dc : Dc) {r : List (List ℕ)} {d : Dc}
      → check_loop sha scratch root size (some collect) n 0 [] [] dc ≡ (ok r, d)
      → Descending r × (length r ≡ n)
  unfolding check_loop run_callback
  check_start zero dc e =
      let (equal, state) = return-ok [] dc e in
      (subst Descending equal tt, omega (arith, ap length equal))
  check_start (suc n) dc e =
      let (got, d1, a1, e1) =
        >>=-eq-ok (recode 1 (call_get_merkle_leaf_element sha root size 0 scratch)) _ dc e in
      let el = take got.0 got.1 in
      let (w, len) = check_loop-Descending n 0 el [] d1 (tt, tt) e1 in (w, omega (arith, len))

  -- If the check of a tree with the collecting callback succeeds, then the callback got as many
  -- elements as the size says, and each of them is lexicographically greater than all before it.
  pub check_sorted :
      (dc d : Dc) (r : List (List ℕ))
      → call_check_merkle_tree_sorted_with_callback sha scratch root size (some collect) [] dc
        ≡ (ok r, d)
      → Descending r × (length r ≡ size)
  unfolding call_check_merkle_tree_sorted_with_callback
  check_sorted dc d r e = check_start size dc e
