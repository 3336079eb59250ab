-- ===== src/Policy/Tables.antt =====
-- The tables of src/common/wallet.c for a `thresh`: entry j bounds what it costs to satisfy j of the
-- scripts that the loop has seen and to dissatisfy the others.
use ledger_babylon_app.Common.{
  ℕ, zero, suc, ◌+◌, ◌≤◌, ◌<◌, ◌≡◌, arith, refl, ap, subst₂, List, [], ◌∷◌, ◌++◌, length,
  length-append, get_or, All,
}
use ledger_babylon_app.Policy.{ScriptList, script_end, script_next}
use ledger_babylon_app.Policy.Costs.{
  ExtInfo, sumcheck, Cost, next_sats, add_child, thresh_sats, ss_costs,
}
use ledger_babylon_app.Policy.Solutions.{Solution, both, join, satisfy, dissatisfy, choose}
use ledger_babylon_app.Policy.Rules.{Each, Judgement}
use ledger_babylon_app.Policy.Alls.{All-append, All-weaken, All-spread}
use ledger_babylon_app.Policy.Bounds.{
  IsBound, AllFit, Fits, sumcheck-IsBound, maxcheck-IsBound_left, maxcheck-IsBound_right,
}

abbrev pub Stacked : Judgement
Stacked x S D = AllFit x.ss.sat S × AllFit x.ss.dsat D

next-stay :
    (t : Cost) (last : ℕ) (T : List ℕ) (j n d : ℕ)
    → j < length T
    → IsBound (get_or T j 0) n
    → IsBound t.dsat d
    → IsBound (get_or (next_sats t last T) j 0) (n + d)
unfolding next_sats
next-stay t last [] j n d h p q = absurd (omega arith)
next-stay t last (c ∷ T) zero n d h p q =
    maxcheck-IsBound_left (sumcheck c t.dsat) (sumcheck last t.sat) (n + d)
      (sumcheck-IsBound c t.dsat n d p q)
next-stay t last (c ∷ T) (suc j) n d h p q = next-stay t c T j n d (omega arith) p q

next-move :
    (t : Cost) (last : ℕ) (T : List ℕ) (j n m : ℕ)
    → j ≤ length T
    → IsBound (get_or (last ∷ T) j 0) n
    → IsBound t.sat m
    → IsBound (get_or (next_sats t last T) j 0) (n + m)
unfolding next_sats
next-move t last [] zero n m h p q = sumcheck-IsBound last t.sat n m p q
next-move t last [] (suc j) n m h p q = absurd (omega arith)
next-move t last (c ∷ T) zero n m h p q =
    maxcheck-IsBound_right (sumcheck c t.dsat) (sumcheck last t.sat) (n + m)
      (sumcheck-IsBound last t.sat n m p q)
next-move t last (c ∷ T) (suc j) n m h p q = next-move t c T j n m (omega arith) p q

length-next_sats : (t : Cost) (last : ℕ) (T : List ℕ) → length (next_sats t last T) ≡ suc (length T)
unfolding next_sats
length-next_sats t last [] = refl
length-next_sats t last (c ∷ T) = ap suc (length-next_sats t c T)

module _ (t : Cost) where
  -- A child more, dissatisfied or satisfied.
  add-stay :
      (T : List ℕ) (j n d : ℕ)
      → j < length T
      → IsBound (get_or T j 0) n
      → IsBound t.dsat d
      → IsBound (get_or (add_child t T) j 0) (n + d)
  unfolding add_child
  add-stay [] j n d h p q = absurd (omega arith)
  add-stay (c ∷ T) zero n d h p q = sumcheck-IsBound c t.dsat n d p q
  add-stay (c ∷ T) (suc j) n d h p q = next-stay t c T j n d (omega arith) p q

  add-move :
      (T : List ℕ) (j n m : ℕ)
      → j < length T
      → IsBound (get_or T j 0) n
      → IsBound t.sat m
      → IsBound (get_or (add_child t T) (suc j) 0) (n + m)
  unfolding add_child
  add-move [] j n m h p q = absurd (omega arith)
  add-move (c ∷ T) j n m h p q = next-move t c T j n m (omega arith) p q

  length-add_child : (T : List ℕ) → 0 < length T → length (add_child t T) ≡ suc (length T)
  unfolding add_child
  length-add_child [] h = absurd (omega arith)
  length-add_child (c ∷ T) h = ap suc (length-next_sats t c T)

abbrev cost : ExtInfo → Cost
cost x = record { dsat = x.ss.dsat; sat = x.ss.sat }

room :
    (x : ExtInfo) (T : List ℕ) (j i : ℕ)
    → j < length T
    → i ≤ suc j
    → i < length (add_child (cost x) T)
room x T j i h b = omega (arith, length-add_child (cost x) T (omega arith))

-- The entry for `j` children so far and `k` more bounds `n` and what these cost.
abbrev pub Reaches : List Cost → List ℕ → ℕ → ℕ → Solution → Type 0
Reaches costs T i n w = IsBound (get_or (thresh_sats costs T) i 0) (n + length w.items)

-- A child before the others: its cost is in the number.
Reaches-join :
    (costs : List Cost) (T : List ℕ) (i i' n : ℕ) (x : Solution) (ys : List Solution)
    → i ≡ i'
    → All (Reaches costs T i (n + length x.items)) ys
    → All (λ y. Reaches costs T i' n (join x y)) ys
Reaches-join costs T i i' n x ys e =
    All-weaken (Reaches costs T i (n + length x.items)) (λ y. Reaches costs T i' n (join x y)) ys
      (λ y.
        subst₂ (λ a b. IsBound (get_or (thresh_sats costs T) a 0) b) e
          (let sum : n + length x.items + length y.items ≡ n + length (x.items ++ y.items) =
              omega (arith, length-append x.items y.items) in
            sum))

pub thresh_sats-bounds :
    (list : ScriptList) (infos : List ExtInfo) (T : List ℕ) (j k n : ℕ)
    → Each Stacked infos list
    → j < length T
    → IsBound (get_or T j 0) n
    → All (Reaches (ss_costs infos) T (j + k) n) (choose k list)
unfolding thresh_sats choose
thresh_sats-bounds script_end [] T j zero n each h p = (
  subst₂ (λ a b. IsBound (get_or T a 0) b) (let e : j ≡ j + 0 = omega arith in e)
      (let e : n ≡ n + 0 = omega arith in e) p,
  tt,
)
thresh_sats-bounds script_end [] T j (suc k) n each h p = tt
thresh_sats-bounds script_end (x ∷ xs) T j k n each h p = absurd each
thresh_sats-bounds (script_next a rest) [] T j k n each h p = absurd each
thresh_sats-bounds (script_next a rest) (x ∷ xs) T j zero n each h p =
    All-spread (Fits x.ss.dsat) (Reaches (ss_costs (x ∷ xs)) T (j + 0) n) (dissatisfy a)
      (choose 0 rest)
      (λ d q.
        Reaches-join (ss_costs xs) (add_child (cost x) T) (j + 0) (j + 0) n d (choose 0 rest) refl (
          thresh_sats-bounds rest xs (add_child (cost x) T) j 0 (n + length d.items) each.1
            (room x T j j h (omega arith)) (add-stay (cost x) T j n (length d.items) h p q)))
      each.0.1
thresh_sats-bounds (script_next a rest) (x ∷ xs) T j (suc k) n each h p =
    All-append (Reaches (ss_costs (x ∷ xs)) T (j + suc k) n) (both (satisfy a) (choose k rest))
      (both (dissatisfy a) (choose (suc k) rest))
      (All-spread (Fits x.ss.sat) (Reaches (ss_costs (x ∷ xs)) T (j + suc k) n) (satisfy a)
        (choose k rest)
        (λ d q.
          Reaches-join (ss_costs xs) (add_child (cost x) T) (suc j + k) (j + suc k) n d
            (choose k rest) (omega arith)
            (thresh_sats-bounds rest xs (add_child (cost x) T) (suc j) k (n + length d.items) each.1
              (room x T j (suc j) h (omega arith))
              (add-move (cost x) T j n (length d.items) h p q)))
        each.0.0)
      (All-spread (Fits x.ss.dsat) (Reaches (ss_costs (x ∷ xs)) T (j + suc k) n) (dissatisfy a)
        (choose (suc k) rest)
        (λ d q.
          Reaches-join (ss_costs xs) (add_child (cost x) T) (j + suc k) (j + suc k) n d
            (choose (suc k) rest) refl
            (thresh_sats-bounds rest xs (add_child (cost x) T) j (suc k) (n + length d.items) each.1
              (room x T j j h (omega arith)) (add-stay (cost x) T j n (length d.items) h p q)))
        each.0.1)

pub thresh_sats-AllFit :
    (list : ScriptList) (infos : List ExtInfo) (k : ℕ)
    → Each Stacked infos list
    → AllFit (get_or (thresh_sats (ss_costs infos) (0 ∷ [])) k 0) (choose k list)
thresh_sats-AllFit list infos k each =
    All-weaken (Reaches (ss_costs infos) (0 ∷ []) (0 + k) 0)
      (Fits (get_or (thresh_sats (ss_costs infos) (0 ∷ [])) k 0)) (choose k list)
      (λ w.
        subst₂ (λ i n. IsBound (get_or (thresh_sats (ss_costs infos) (0 ∷ [])) i 0) n)
          (let e : 0 + k ≡ k = omega arith in e)
          (let e : 0 + length w.items ≡ length w.items = omega arith in e))
      (thresh_sats-bounds list infos (0 ∷ []) 0 k 0 each (omega arith)
        (let zero_bound : IsBound 0 0 = omega arith in zero_bound))
