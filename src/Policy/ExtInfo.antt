-- ===== src/Policy/ExtInfo.antt =====
-- `compute_miniscript_policy_ext_info` of src/common/wallet.c, and the sanity checks of
-- src/handler/lib/policy.c that use it.
use ledger_babylon_app.Common.{
  ℕ, ◌+◌, List, [], ◌∷◌, Bool, true, false, not, ◌&&◌, ◌||◌, Option, none, some, if◌then◌else◌, ltb,
  ◌==◌,
}
use ledger_babylon_app.Policy.{
  PolicyNode, policy_node, Token, ScriptList, script_end, script_next, TapTree, tree_leaf,
  tree_branch, MiniscriptContext, miniscript_context_p2wsh, miniscript_context_tapscript,
  MiniscriptType, miniscript_type_b, token_sh, token_wsh, token_pk, token_pkh, token_wpkh,
  token_multi, token_multi_a, token_sortedmulti, token_sortedmulti_a, token_tr, token_tr_tree,
  token_0, token_1, token_pk_k, token_pk_h, token_older, token_after, token_sha256, token_hash256,
  token_ripemd160, token_hash160, token_andor, token_and_v, token_and_b, token_and_n, token_or_b,
  token_or_c, token_or_d, token_or_i, token_thresh, token_a, token_s, token_c, token_t, token_d,
  token_v, token_j, token_n, token_l, token_u,
}
use ledger_babylon_app.Policy.Costs.{ExtInfo, minus_one}
use ledger_babylon_app.Policy.Leaves.{
  info_0, info_1, info_pk_k, info_pk_h, info_pk, info_pkh, info_multi, info_multi_a, info_older,
  info_after, info_hash,
}
use ledger_babylon_app.Policy.Joints.{
  info_andor, info_and_v, info_and_b, info_and_n, info_or_b, info_or_c, info_or_d, info_or_i,
}
use ledger_babylon_app.Policy.Wrappers.{
  info_a, info_s_n, info_c, info_d, info_t, info_v, info_j, info_l_u, info_thresh,
}

-- What a node computes of its children, where all of these calls succeed.
abbrev pub of_one : (ExtInfo → ExtInfo) → Option ExtInfo → Option ExtInfo
of_one f none = none
of_one f (some x) = some (f x)

abbrev pub of_two : (ExtInfo → ExtInfo → ExtInfo) → Option ExtInfo → Option ExtInfo → Option ExtInfo
of_two f none b = none
of_two f (some x) b = of_one (f x) b

abbrev pub of_three :
    (ExtInfo → ExtInfo → ExtInfo → ExtInfo)
    → Option ExtInfo
    → Option ExtInfo
    → Option ExtInfo
    → Option ExtInfo
of_three f none b c = none
of_three f (some x) b c = of_two (f x) b c

abbrev pub cons_info : Option ExtInfo → Option (List ExtInfo) → Option (List ExtInfo)
cons_info none b = none
cons_info (some x) none = none
cons_info (some x) (some xs) = some (x ∷ xs)

abbrev pub of_list : (List ExtInfo → Option ExtInfo) → Option (List ExtInfo) → Option ExtInfo
of_list f none = none
of_list f (some xs) = f xs

-- `none` is -1. The type of the context leaves out the contexts that the code refuses.
unfoldable mutual
  pub compute_miniscript_policy_ext_info : MiniscriptContext → PolicyNode → Option ExtInfo
  compute_miniscript_policy_ext_info ctx (policy_node flags token) =
      let info = token_info ctx token in if flags.is_miniscript then info else none

  -- The switch over the tokens.
  pub token_info : MiniscriptContext → Token → Option ExtInfo
  token_info ctx token_0 = some info_0
  token_info ctx token_1 = some info_1
  token_info ctx (token_pk_k key) = some (info_pk_k ctx)
  token_info ctx (token_pk_h key) = some info_pk_h
  token_info ctx (token_pk key) = some (info_pk ctx)
  token_info ctx (token_pkh key) = some info_pkh
  token_info ctx (token_multi threshold n keys) = some (info_multi threshold n)
  token_info ctx (token_multi_a threshold n keys) = some (info_multi_a threshold n)
  token_info ctx (token_older n) = some (info_older n)
  token_info ctx (token_after n) = some (info_after n)
  token_info ctx (token_sha256 hash) = some (info_hash 33)
  token_info ctx (token_hash256 hash) = some (info_hash 33)
  token_info ctx (token_ripemd160 hash) = some (info_hash 21)
  token_info ctx (token_hash160 hash) = some (info_hash 21)
  token_info ctx (token_andor a b c) =
      of_three info_andor (compute_miniscript_policy_ext_info ctx a)
        (compute_miniscript_policy_ext_info ctx b) (compute_miniscript_policy_ext_info ctx c)
  token_info ctx (token_and_v a b) =
      of_two info_and_v (compute_miniscript_policy_ext_info ctx a)
        (compute_miniscript_policy_ext_info ctx b)
  token_info ctx (token_and_b a b) =
      of_two info_and_b (compute_miniscript_policy_ext_info ctx a)
        (compute_miniscript_policy_ext_info ctx b)
  token_info ctx (token_and_n a b) =
      of_two info_and_n (compute_miniscript_policy_ext_info ctx a)
        (compute_miniscript_policy_ext_info ctx b)
  token_info ctx (token_or_b a b) =
      of_two info_or_b (compute_miniscript_policy_ext_info ctx a)
        (compute_miniscript_policy_ext_info ctx b)
  token_info ctx (token_or_c a b) =
      of_two info_or_c (compute_miniscript_policy_ext_info ctx a)
        (compute_miniscript_policy_ext_info ctx b)
  token_info ctx (token_or_d a b) =
      of_two info_or_d (compute_miniscript_policy_ext_info ctx a)
        (compute_miniscript_policy_ext_info ctx b)
  token_info ctx (token_or_i a b) =
      of_two info_or_i (compute_miniscript_policy_ext_info ctx a)
        (compute_miniscript_policy_ext_info ctx b)
  token_info ctx (token_thresh threshold n list) =
      of_list (info_thresh threshold n) (list_info ctx list)
  token_info ctx (token_a a) = of_one info_a (compute_miniscript_policy_ext_info ctx a)
  token_info ctx (token_s a) = of_one (info_s_n true) (compute_miniscript_policy_ext_info ctx a)
  token_info ctx (token_n a) = of_one (info_s_n false) (compute_miniscript_policy_ext_info ctx a)
  token_info ctx (token_c a) = of_one info_c (compute_miniscript_policy_ext_info ctx a)
  token_info ctx (token_d a) = of_one info_d (compute_miniscript_policy_ext_info ctx a)
  token_info ctx (token_t a) = of_one info_t (compute_miniscript_policy_ext_info ctx a)
  token_info ctx (token_v a) = of_one info_v (compute_miniscript_policy_ext_info ctx a)
  token_info ctx (token_j a) = of_one info_j (compute_miniscript_policy_ext_info ctx a)
  token_info ctx (token_l a) = of_one info_l_u (compute_miniscript_policy_ext_info ctx a)
  token_info ctx (token_u a) = of_one info_l_u (compute_miniscript_policy_ext_info ctx a)
  token_info ctx (token_sortedmulti threshold n keys) = none
  token_info ctx (token_sortedmulti_a threshold n keys) = none
  token_info ctx (token_wpkh key) = none
  token_info ctx (token_sh a) = none
  token_info ctx (token_wsh a) = none
  token_info ctx (token_tr key) = none
  token_info ctx (token_tr_tree key tree) = none

  -- The calls for the children of a `thresh`, in their order.
  pub list_info : MiniscriptContext → ScriptList → Option (List ExtInfo)
  list_info ctx script_end = some []
  list_info ctx (script_next a rest) =
      cons_info (compute_miniscript_policy_ext_info ctx a) (list_info ctx rest)

abbrev pub is_type_b : MiniscriptType → Bool
is_type_b miniscript_type_b = true
is_type_b _ = false

abbrev pub max_standard_p2wsh_stack_items : ℕ
max_standard_p2wsh_stack_items = 100

abbrev pub max_standard_p2wsh_script_size : ℕ
max_standard_p2wsh_script_size = 3600

abbrev pub max_ops_per_script : ℕ
max_ops_per_script = 201

-- The conversion of an int16_t to uint32_t.
abbrev pub to_u32 : ℕ → ℕ
to_u32 a = if ltb a 0x8000 then a else a + 0xffff0000

-- The limits and flags that the check asks for.
unfoldable pub within_limits : ExtInfo → Bool
within_limits info =
    info.m
    && info.s
    && info.k
    && not (info.ss.sat == minus_one || ltb max_standard_p2wsh_stack_items (to_u32 info.ss.sat))
    && not (info.ops.sat == minus_one)
    && not (ltb max_ops_per_script (info.ops.count + to_u32 info.ops.sat))
    && not (ltb max_standard_p2wsh_script_size info.script_size)

-- `true` is the result 0 of the C call, `false` is -1.
unfoldable pub is_miniscript_sane : PolicyNode → MiniscriptContext → Bool
is_miniscript_sane (policy_node flags token) ctx =
    flags.is_miniscript
    && is_type_b flags.miniscript_type
    && elim (compute_miniscript_policy_ext_info ctx (policy_node flags token)) [
      | none ↦ false
      | some info ↦ within_limits info
    ]

unfoldable pub is_taptree_miniscript_sane : TapTree → Bool
is_taptree_miniscript_sane (tree_leaf (policy_node flags token)) =
    not flags.is_miniscript
    || is_miniscript_sane (policy_node flags token) miniscript_context_tapscript
is_taptree_miniscript_sane (tree_branch left right) =
    is_taptree_miniscript_sane left && is_taptree_miniscript_sane right

-- The miniscript under `wsh`, if it is one.
unfoldable pub wsh_sane : PolicyNode → Bool
wsh_sane (policy_node flags token) =
    not flags.is_miniscript || is_miniscript_sane (policy_node flags token) miniscript_context_p2wsh

-- The checks of `is_policy_sane` on the scripts of the policy, which come first.
unfoldable pub policy_scripts_sane : PolicyNode → Bool
policy_scripts_sane (policy_node flags (token_wsh inner)) = wsh_sane inner
policy_scripts_sane (policy_node flags (token_tr_tree key tree)) = is_taptree_miniscript_sane tree
policy_scripts_sane _ = true

-- The result -1 of the C call, for legacy scripts, is `none`.
unfoldable pub inner_segwit_version : PolicyNode → Option ℕ
inner_segwit_version (policy_node flags (token_wpkh key)) = some 0
inner_segwit_version (policy_node flags (token_wsh inner)) = some 0
inner_segwit_version _ = none

unfoldable pub get_policy_segwit_version : PolicyNode → Option ℕ
unfolding inner_segwit_version
get_policy_segwit_version (policy_node flags (token_tr key)) = some 1
get_policy_segwit_version (policy_node flags (token_tr_tree key tree)) = some 1
get_policy_segwit_version (policy_node flags (token_sh inner)) = inner_segwit_version inner
get_policy_segwit_version (policy_node flags (token_wpkh key)) = some 0
get_policy_segwit_version (policy_node flags (token_wsh inner)) = some 0
get_policy_segwit_version _ = none
