-- ===== src/Policy/Wrappers.antt =====
-- The wrappers and `thresh` in `compute_miniscript_policy_ext_info` of src/common/wallet.c, of the
-- information on the children.
use ledger_babylon_app.Common.{
  ℕ, suc, ◌+◌, List, [], ◌∷◌, Bool, true, false, not, ◌&&◌, ◌||◌, Option, none, some, if◌then◌else◌,
  leb, ltb, ◌==◌,
}
use ledger_babylon_app.Script.{get_push_script_size}
use ledger_babylon_app.Policy.Costs.{
  ExtInfo, blank, ops_of, ss_of, minus_one, u16, sumcheck, maxcheck, compute_thresh_ops,
  compute_thresh_stacksize,
}

-- What all wrappers keep of the script.
abbrev pub kept : ExtInfo → ExtInfo
kept x = record blank { s = x.s; m = x.m; g = x.g; h = x.h; i = x.i; j = x.j; k = x.k }

unfoldable pub info_a : ExtInfo → ExtInfo
info_a x = record (kept x) {
  f = x.f;
  e = x.e;
  script_size = u16 (x.script_size + 2);
  ops = ops_of (2 + x.ops.count) x.ops.sat x.ops.dsat;
  ss = x.ss;
}

-- `n:`, and `s:` if the flag is set.
unfoldable pub info_s_n : Bool → ExtInfo → ExtInfo
info_s_n is_s x = record (kept x) {
  f = x.f;
  e = x.e;
  x = if is_s then x.x else true;
  script_size = u16 (x.script_size + 1);
  ops = ops_of (1 + x.ops.count) x.ops.sat x.ops.dsat;
  ss = x.ss;
}

unfoldable pub info_c : ExtInfo → ExtInfo
info_c x = record (kept x) {
  s = true;
  f = x.f;
  e = x.e;
  x = false;
  script_size = u16 (x.script_size + 1);
  ops = ops_of (1 + x.ops.count) x.ops.sat x.ops.dsat;
  ss = x.ss;
}

unfoldable pub info_d : ExtInfo → ExtInfo
info_d x = record (kept x) {
  e = true;
  script_size = u16 (x.script_size + 3);
  ops = ops_of (3 + x.ops.count) x.ops.sat 0;
  ss = ss_of (sumcheck 1 x.ss.sat) 1;
}

unfoldable pub info_t : ExtInfo → ExtInfo
info_t x = record (kept x) {
  f = true;
  script_size = u16 (x.script_size + 1);
  ops = ops_of x.ops.count x.ops.sat minus_one;
  ss = ss_of x.ss.sat minus_one;
}

-- A flag as a number.
abbrev pub bit : Bool → ℕ
bit b = if b then 1 else 0

unfoldable pub info_v : ExtInfo → ExtInfo
info_v x = record (kept x) {
  f = true;
  script_size = u16 (x.script_size + bit x.x);
  ops = ops_of (x.ops.count + bit x.x) x.ops.sat minus_one;
  ss = ss_of x.ss.sat minus_one;
}

unfoldable pub info_j : ExtInfo → ExtInfo
info_j x = record (kept x) {
  e = x.f;
  script_size = u16 (x.script_size + 4);
  ops = ops_of (4 + x.ops.count) x.ops.sat 0;
  ss = ss_of x.ss.sat 1;
}

unfoldable pub info_l_u : ExtInfo → ExtInfo
info_l_u x = record (kept x) {
  f = false;
  e = x.f;
  script_size = u16 (x.script_size + 4);
  ops = ops_of (3 + x.ops.count) x.ops.sat x.ops.dsat;
  ss = ss_of (sumcheck x.ss.sat 1) (maxcheck 1 (sumcheck x.ss.dsat 1));
}

-- The variables of the loop over the children of a `thresh`.
pub record ThreshLoop : Type 0 where
  pub count_s : ℕ
  pub count_e : ℕ
  pub count_m : ℕ
  pub children_scriptsize : ℕ
  pub n_children : ℕ
  pub out : ExtInfo

-- A turn of the loop; the locks of `out` hold those of the child when they are compared with it.
unfoldable pub thresh_turn : ℕ → ExtInfo → ThreshLoop → ThreshLoop
thresh_turn threshold t l =
    let g = l.out.g || t.g in
    let h = l.out.h || t.h in
    let i = l.out.i || t.i in
    let j = l.out.j || t.j in
    let mixed = leb 2 threshold && ((t.g && h) || (t.h && g) || (t.i && j) || (t.j && i)) in
    record {
      count_s = bit t.s + l.count_s;
      count_e = bit t.e + l.count_e;
      count_m = bit t.m + l.count_m;
      children_scriptsize = l.children_scriptsize + t.script_size;
      n_children = suc l.n_children;
      out = record l.out { g = g; h = h; i = i; j = j; k = l.out.k && t.k && not mixed };
    }

unfoldable pub thresh_loop : ℕ → List ExtInfo → ThreshLoop → ThreshLoop
unfolding thresh_turn
thresh_loop threshold [] l = l
thresh_loop threshold (t ∷ rest) l = thresh_loop threshold rest (thresh_turn threshold t l)

abbrev pub no_children : ThreshLoop
no_children = record {
  count_s = 0;
  count_e = 0;
  count_m = 0;
  children_scriptsize = 0;
  n_children = 0;
  out = blank;
}

-- The flags after the loop. `count_not_s`, which may be negative, is `n - count_s`.
unfoldable pub thresh_flags : ℕ → ℕ → ThreshLoop → ExtInfo
thresh_flags threshold n l = record l.out {
  s = ltb n (threshold + l.count_s);
  e = l.count_s == n;
  m = l.count_e == n && leb n (threshold + l.count_s);
  x = false;
  script_size = u16 (l.children_scriptsize + l.n_children + get_push_script_size threshold);
}

unfoldable pub info_thresh : ℕ → ℕ → List ExtInfo → Option ExtInfo
unfolding thresh_loop thresh_flags
info_thresh threshold n children =
    let out = thresh_flags threshold n (thresh_loop threshold children no_children) in
    elim (compute_thresh_ops threshold n children) [
      | none ↦ none
      | some ops ↦ elim (compute_thresh_stacksize threshold n children) [
        | none ↦ none
        | some ss ↦ some (record out { ops = ops; ss = ss })
      ]
    ]
