-- ===== src/Client/LeafHash/Climb.antt =====
-- What the loops of `call_get_merkle_leaf_hash` compute: a climb from the claimed leaf to the root.
use ledger_babylon_app.Common.{
  ==_iff, sym, ◌∙◌, ℕ, zero, suc, ◌+◌, ◌-◌, ◌*◌, ◌≤◌, ◌≡◌, refl, ap, subst, arith, List, [], ◌∷◌,
  leb, ◌==◌, length, length-take, length-drop, take, Option, none, some, drop, Bool-cases, inl, inr,
}
use ledger_babylon_app.Buffer.{Buffer, buffer_seek_cur, buffer_get_cur}
use ledger_babylon_app.Buffer.Bounds.{IsValid, seek-IsValid}
use ledger_babylon_app.Merkle.{
  Sha256, merkle_combine_hashes, Direction, left, right, fail, merkle_get_ith_direction,
}
use ledger_babylon_app.Client.{Dc, ok, guard, interrupt, read_u8, can_read, >>=-eq-ok}
use ledger_babylon_app.Client.Valid.{return-ok, guard-ok, interrupt-Unread, read_u8-ok, can_read-ok}
use ledger_babylon_app.Client.LeafHash.{more_elements, join_hashes, steps, proof_loop}

-- A further message holds all of the elements that it announces.
more_elements-ok :
    (proof_size i : ℕ) (dc : Dc) {n : ℕ} {d : Dc}
    → more_elements proof_size i dc ≡ (ok n, d)
    → IsValid d.read_buffer × (d.read_buffer.offset + 32 * n ≤ d.read_buffer.size)
unfolding more_elements
more_elements-ok proof_size i dc {n} {d} e =
    let (u0, s0, a0, e1) = >>=-eq-ok (interrupt (0xa0 ∷ []) 1) _ dc e in
    let (fresh, start) = interrupt-Unread (0xa0 ∷ []) 1 dc a0 in
    let (n', s1, a1, e2) = >>=-eq-ok (read_u8 1) _ s0 e1 in
    let v1 = read_u8-ok 1 s0 fresh a1 in
    let (len, s2, a2, e3) = >>=-eq-ok (read_u8 1) _ s1 e2 in
    let v2 = read_u8-ok 1 s1 v1 a2 in
    let (u3, s3, a3, e4) = >>=-eq-ok (can_read (n' * len) 1) _ s2 e3 in
    let (same3, room) = can_read-ok (n' * len) 1 s2 v2 a3 in
    let (u4, s4, a4, e5) = >>=-eq-ok (guard (len == 32) 1) _ s3 e4 in
    let (wide, same4) = guard-ok (len == 32) 1 s3 a4 in
    let (u5, s5, a5, e6) = >>=-eq-ok (guard (leb (i + n') proof_size) 1) _ s4 e5 in
    let (bound, same5) = guard-ok (leb (i + n') proof_size) 1 s4 a5 in
    let (same6, same7) = return-ok n' s5 e6 in
    let state : s2 ≡ d = same3 ∙ same4 ∙ same5 ∙ same7 in
    let thirty_two : len ≡ 32 = (==_iff len 32).0 wide in
    let room' : s2.read_buffer.offset + 32 * n ≤ s2.read_buffer.size =
      omega (arith, ap (λ t. n' * t) thirty_two, same6) in
    subst (λ s. IsValid s.read_buffer × (s.read_buffer.offset + 32 * n ≤ s.read_buffer.size)) state
      (v2, room')

module _ (sha : Sha256) (tree_size leaf_index proof_size : ℕ) where
  -- Steps from step `i` at hash `h` to step `j` at hash `g`, each with a sibling of 32 bytes.
  pub data Climb : ℕ → List ℕ → ℕ → List ℕ → Type 0 where
    stop : {i : ℕ} {h : List ℕ} → Climb i h i h
    from_left :
        {i j : ℕ} {h g : List ℕ} (sib next : List ℕ)
        → length sib ≡ 32
        → merkle_get_ith_direction tree_size leaf_index (proof_size - i - 1) ≡ some left
        → next ≡ merkle_combine_hashes sha h sib
        → Climb (i + 1) next j g
        → Climb i h j g
    from_right :
        {i j : ℕ} {h g : List ℕ} (sib next : List ℕ)
        → length sib ≡ 32
        → merkle_get_ith_direction tree_size leaf_index (proof_size - i - 1) ≡ some right
        → next ≡ merkle_combine_hashes sha sib h
        → Climb (i + 1) next j g
        → Climb i h j g

  Climb-trans : {i j k : ℕ} {h g f : List ℕ} → Climb i h j g → Climb j g k f → Climb i h k f
  Climb-trans stop c = c
  Climb-trans (from_left sib n e d q r) c = from_left sib n e d q (Climb-trans r c)
  Climb-trans (from_right sib n e d q r) c = from_right sib n e d q (Climb-trans r c)

  -- One step: the direction is one of the two, and the state is as before.
  step_cases :
      (o : Option Direction) (i : ℕ) (h sib g : List ℕ) {j : ℕ} {f : List ℕ} (dc d : Dc)
      → merkle_get_ith_direction tree_size leaf_index (proof_size - i - 1) ≡ o
      → length sib ≡ 32
      → join_hashes sha o h sib dc ≡ (ok g, d)
      → ((dc ≡ d) × (Climb (i + 1) g j f → Climb i h j f))
  unfolding join_hashes
  step_cases (some left) i h sib g dc d o l e = (cc, from_left sib g l o (cc))
  step_cases (some right) i h sib g dc d o l e = (cc, from_right sib g l o (cc))
  step_cases (some fail) i h sib g dc d o l e = cc
  step_cases none i h sib g dc d o l e = cc

  sibling_size :
      (b : Buffer) (n : ℕ)
      → IsValid b
      → b.offset + 32 * suc n ≤ b.size
      → (length (take 32 (buffer_get_cur b)) ≡ 32)
        × ((buffer_seek_cur b 32).1.offset + 32 * n ≤ (buffer_seek_cur b 32).1.size)
  unfolding buffer_seek_cur
  sibling_size b n v h = (
    omega (arith, length-take 32 (drop b.offset b.ptr), length-drop b.offset b.ptr),
    ground arith,
  )

  -- The inner loop on `n` siblings that are all in the buffer climbs `n` steps.
  steps-Climb :
      (n i : ℕ) (h g : List ℕ) (dc d : Dc)
      → IsValid dc.read_buffer
      → dc.read_buffer.offset + 32 * n ≤ dc.read_buffer.size
      → steps sha tree_size leaf_index proof_size n i h dc ≡ (ok g, d)
      → Climb i h (i + n) g
  unfolding steps
  steps-Climb zero i h g dc d v fits e =
      let same : h ≡ g = cc in let here : i + 0 ≡ i = omega arith in rw (← same, here) stop
  steps-Climb (suc n) i h g dc d v fits e =
      let sib = take 32 (buffer_get_cur dc.read_buffer) in
      let dir = merkle_get_ith_direction tree_size leaf_index (proof_size - i - 1) in
      let (size, rest) = sibling_size dc.read_buffer n v fits in
      let (next, d1, e1, e2) = >>=-eq-ok (join_hashes sha dir h sib) _ dc e in
      let (same, up) = step_cases dir i h sib next {j = i + suc n} {f = g} dc d1 refl size e1 in
      up (
        let far : i + 1 + n ≡ i + suc n = omega arith in
        subst (λ k. Climb (i + 1) next k g) far
          (steps-Climb n (i + 1) next g (skipped dc) d (seek-IsValid 32 v).1 rest (
            subst
              (λ x.
                steps sha tree_size leaf_index proof_size n (i + 1) next (skipped x) ≡ (ok g, d))
              (sym same) e2)))
    where
      skipped : Dc → Dc
      skipped dc = record dc { read_buffer = (buffer_seek_cur dc.read_buffer 32).1 }

  -- The outer loop climbs to the last step of the proof.
  pub proof_loop-Climb :
      (fuel n i : ℕ) (h g : List ℕ) (dc d : Dc)
      → IsValid dc.read_buffer
      → dc.read_buffer.offset + 32 * n ≤ dc.read_buffer.size
      → proof_loop sha tree_size leaf_index proof_size fuel n i h dc ≡ (ok g, d)
      → Climb i h proof_size g
  unfolding proof_loop
  proof_loop-Climb zero n i h g dc d v fits e = cc
  proof_loop-Climb (suc fuel) n i h g dc d v fits e =
      let (hash, d1, e1, e2) = >>=-eq-ok (steps sha tree_size leaf_index proof_size n i h) _ dc e in
      let climbed : Climb i h (i + n) hash = steps-Climb n i h hash dc d1 v fits e1 in
      elim (Bool-cases (i + n == proof_size)) [
        | inl done ↦
            let (same, state) = return-ok hash d1 (rw done at e2) in
            subst (λ k. Climb i h k g) ((==_iff (i + n) proof_size).0 done)
              (subst (λ x. Climb i h (i + n) x) same climbed)
        | inr more ↦
            let (n', d2, e3, e4) =
              >>=-eq-ok (more_elements proof_size (i + n))
                (λ k. proof_loop sha tree_size leaf_index proof_size fuel k (i + n) hash) d1
                (rw more at e2) in
            let (v2, fits2) = more_elements-ok proof_size (i + n) d1 e3 in
            Climb-trans climbed (proof_loop-Climb fuel n' (i + n) hash g d2 d v2 fits2 e4)
      ]
