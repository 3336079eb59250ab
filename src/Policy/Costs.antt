-- ===== src/Policy/Costs.antt =====
-- The figures that src/common/wallet.c computes for a miniscript: `policy_node_ext_info_t`, the sums
-- and maxima of int16_t where -1 is invalid, and the tables of a `thresh`.
use ledger_babylon_app.Common.{
  ℕ, ◌+◌, ◌%◌, ◌^◌, List, [], ◌∷◌, Bool, true, false, ◌||◌, Option, none, some, if◌then◌else◌, leb,
  ltb, get_or,
}

-- An int16_t as its 16 bits, and -1.
abbrev pub negative : ℕ → Bool
negative a = leb 0x8000 a

abbrev pub minus_one : ℕ
minus_one = 0xffff

abbrev pub int16_max : ℕ
int16_max = 0x7fff

abbrev pub u16 : ℕ → ℕ
u16 a = a % 2 ^ 16

-- `a > b` on int16_t.
abbrev pub int16_gt : ℕ → ℕ → Bool
int16_gt a b = if negative a then (if negative b then ltb b a else false) else negative b || ltb b a

pub record MiniscriptOps : Type 0 where
  pub count : ℕ
  pub sat : ℕ
  pub dsat : ℕ

pub record MiniscriptStacksize : Type 0 where
  pub sat : ℕ
  pub dsat : ℕ

pub record ExtInfo : Type 0 where
  pub ops : MiniscriptOps
  pub ss : MiniscriptStacksize
  pub script_size : ℕ
  pub s : Bool
  pub f : Bool
  pub e : Bool
  pub m : Bool
  pub g : Bool
  pub h : Bool
  pub i : Bool
  pub j : Bool
  pub k : Bool
  pub x : Bool

abbrev pub ops_of : ℕ → ℕ → ℕ → MiniscriptOps
ops_of n a b = record { count = u16 n; sat = a; dsat = b }

abbrev pub ss_of : ℕ → ℕ → MiniscriptStacksize
ss_of a b = record { sat = a; dsat = b }

-- The information after the call's memset and the flags that it sets first.
abbrev pub blank : ExtInfo
blank = record {
  ops = ops_of 0 0 0;
  ss = ss_of 0 0;
  script_size = 0;
  s = false;
  f = false;
  e = false;
  m = true;
  g = false;
  h = false;
  i = false;
  j = false;
  k = true;
  x = true;
}

unfoldable pub sumcheck : ℕ → ℕ → ℕ
sumcheck a b =
    if negative a || negative b
    then minus_one
    else if ltb int16_max (a + b)
    then int16_max
    else a + b

unfoldable pub maxcheck : ℕ → ℕ → ℕ
maxcheck a b = if negative a then b else if int16_gt a b then a else b

abbrev pub max_n_in_thresh : ℕ
max_n_in_thresh = 128

-- What a child adds to the table: the cost of dissatisfying it and that of satisfying it.
pub record Cost : Type 0 where
  pub dsat : ℕ
  pub sat : ℕ

-- The entries of `next_sats` from 1 on, after the entry `last` of `sats`.
unfoldable pub next_sats : Cost → ℕ → List ℕ → List ℕ
next_sats t last [] = sumcheck last t.sat ∷ []
next_sats t last (c ∷ sats) =
    maxcheck (sumcheck c t.dsat) (sumcheck last t.sat) ∷ next_sats t c sats

-- A turn of the loop of `compute_thresh_ops` and of `compute_thresh_stacksize`.
unfoldable pub add_child : Cost → List ℕ → List ℕ
unfolding next_sats
add_child t [] = []
add_child t (c ∷ sats) = sumcheck c t.dsat ∷ next_sats t c sats

-- The table after all turns.
unfoldable pub thresh_sats : List Cost → List ℕ → List ℕ
unfolding add_child
thresh_sats [] sats = sats
thresh_sats (t ∷ rest) sats = thresh_sats rest (add_child t sats)

-- `compute_thresh_ops` and `compute_thresh_stacksize`, of what the recursive calls compute.
unfoldable pub thresh_count : List ExtInfo → ℕ → ℕ
thresh_count [] count = count
thresh_count (t ∷ rest) count = thresh_count rest (u16 (count + t.ops.count + 1))

abbrev pub ops_costs : List ExtInfo → List Cost
ops_costs [] = []
ops_costs (t ∷ rest) = record { dsat = t.ops.dsat; sat = t.ops.sat } ∷ ops_costs rest

abbrev pub ss_costs : List ExtInfo → List Cost
ss_costs [] = []
ss_costs (t ∷ rest) = record { dsat = t.ss.dsat; sat = t.ss.sat } ∷ ss_costs rest

unfoldable pub compute_thresh_ops : ℕ → ℕ → List ExtInfo → Option MiniscriptOps
unfolding thresh_sats thresh_count
compute_thresh_ops k n children =
    if ltb max_n_in_thresh n
    then none
    else let sats = thresh_sats (ops_costs children) (0 ∷ []) in
      some
        (record { count = thresh_count children 0; sat = get_or sats k 0; dsat = get_or sats 0 0 })

unfoldable pub compute_thresh_stacksize : ℕ → ℕ → List ExtInfo → Option MiniscriptStacksize
unfolding thresh_sats
compute_thresh_stacksize k n children =
    if ltb max_n_in_thresh n
    then none
    else let sats = thresh_sats (ss_costs children) (0 ∷ []) in
      some (record { sat = get_or sats k 0; dsat = get_or sats 0 0 })
