-- ===== src/Policy/Parts.antt =====
-- What a `thresh` computes in src/common/wallet.c, where it computes something.
use ledger_babylon_app.Common.{
  ℕ, ◌≡◌, List, [], ◌∷◌, get_or, none, some, Bool, true, false, if◌then◌else◌, ltb,
}
use ledger_babylon_app.Policy.Costs.{
  ExtInfo, MiniscriptOps, MiniscriptStacksize, compute_thresh_ops, compute_thresh_stacksize,
  max_n_in_thresh, thresh_sats, ss_costs, ops_costs, thresh_count,
}
use ledger_babylon_app.Policy.Wrappers.{info_thresh, thresh_flags, thresh_loop, no_children}

parts_if :
    (b : Bool) (out : ExtInfo) (o : MiniscriptOps) (t : MiniscriptStacksize) (info : ExtInfo)
    → elim (if b then none else some o) [
      | none ↦ none
      | some ops ↦ elim (if b then none else some t) [
        | none ↦ none
        | some ss ↦ some (record out { ops = ops; ss = ss })
      ]
    ]
      ≡ some info
    → record out { ops = o; ss = t } ≡ info
parts_if true out o t info e = cc
parts_if false out o t info e = cc

abbrev pub flags_of : ℕ → ℕ → List ExtInfo → ExtInfo
flags_of k n infos = thresh_flags k n (thresh_loop k infos no_children)

abbrev pub ss_of_thresh : ℕ → List ExtInfo → MiniscriptStacksize
ss_of_thresh k infos =
    let sats = thresh_sats (ss_costs infos) (0 ∷ []) in
    record { sat = get_or sats k 0; dsat = get_or sats 0 0 }

pub info_thresh-parts :
    (k n : ℕ) (infos : List ExtInfo) (info : ExtInfo)
    → info_thresh k n infos ≡ some info
    → (ops : MiniscriptOps) × (record (flags_of k n infos) { ops = ops; ss = ss_of_thresh k infos }
        ≡ info)
unfolding info_thresh compute_thresh_ops compute_thresh_stacksize
info_thresh-parts k n infos info e =
    let sats = thresh_sats (ops_costs infos) (0 ∷ []) in
    (
      _,
      parts_if (ltb max_n_in_thresh n) (flags_of k n infos)
          (record { count = thresh_count infos 0; sat = get_or sats k 0; dsat = get_or sats 0 0 })
          (ss_of_thresh k infos) info e,
    )
