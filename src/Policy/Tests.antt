-- ===== src/Policy/Tests.antt =====
-- Policies on which the analysis of src/common/wallet.c and the checks of src/handler/lib/policy.c run.
use ledger_babylon_app.Common.{ℕ, ◌≡◌, refl, [], ◌∷◌, length, All, Bool, true, false, none, some}
use ledger_babylon_app.Policy.{
  PolicyNode, policy_node, Token, Keyexpr, key_expression_normal, MiniscriptType, miniscript_type_b,
  miniscript_type_v, miniscript_type_k, miniscript_type_w, miniscript_context_p2wsh, TapTree,
  tree_leaf, tree_branch, token_wsh, token_tr_tree, script_end, script_next, token_pk, token_pk_k,
  token_older, token_thresh, token_or_b, token_and_v, token_s, token_a, token_v, token_d, token_l,
  token_c, token_0, token_and_n, token_andor, token_or_i, token_multi_a, token_sortedmulti,
}
use ledger_babylon_app.Script.{get_push_script_size}
use ledger_babylon_app.Policy.Costs.{
  ExtInfo, blank, compute_thresh_ops, compute_thresh_stacksize, sumcheck, maxcheck,
}
use ledger_babylon_app.Policy.Leaves.{
  info_0, info_1, info_pk_k, info_pk_h, info_pk, info_pkh, info_multi, info_multi_a, info_older,
  info_after, info_hash,
}
use ledger_babylon_app.Policy.Joints.{
  info_andor, info_and_v, info_and_b, info_and_n, info_or_b, info_or_c, info_or_d, info_or_i,
}
use ledger_babylon_app.Policy.Wrappers.{
  info_a, info_s_n, info_c, info_d, info_t, info_v, info_j, info_l_u, info_thresh,
}
use ledger_babylon_app.Policy.ExtInfo.{
  compute_miniscript_policy_ext_info, is_miniscript_sane, is_taptree_miniscript_sane, within_limits,
  wsh_sane, policy_scripts_sane,
}
use ledger_babylon_app.Policy.Solutions.{satisfy, dissatisfy, IsParsed}
use ledger_babylon_app.Policy.Bounds.{IsBound}
use ledger_babylon_app.Policy.Sane.{
  IsSafe, AllNodes, miniscripts, miniscript_itself, stack_sizes-IsBound, sane_policy-IsSafe,
}

abbrev node : MiniscriptType → Token → PolicyNode
node kind token =
    policy_node
      (record {
        is_miniscript = true;
        miniscript_type = kind;
        miniscript_mod_z = false;
        miniscript_mod_o = false;
        miniscript_mod_n = false;
        miniscript_mod_d = false;
        miniscript_mod_u = false;
      })
      token

abbrev key : ℕ → Keyexpr
key n = record {
  num_first = 0;
  num_second = 1;
  placeholder = key_expression_normal n;
  keyexpr_index = n;
}

abbrev b_node : Token → PolicyNode
b_node = node miniscript_type_b

-- thresh(2,pk(@0),s:pk(@1),a:dv:older(144))
abbrev two_of_three : PolicyNode
two_of_three = b_node (
    token_thresh 2 3 (
      script_next (b_node (token_pk (key 0))) (
        script_next (node miniscript_type_w (token_s (b_node (token_pk (key 1))))) (
          script_next
            (node miniscript_type_w (
              token_a
                (b_node (token_d (node miniscript_type_v (token_v (b_node (token_older 144))))))))
            script_end))))

-- or_i(thresh(..),and_v(v:c:pk_k(@2),older(1000)))
abbrev vault : PolicyNode
vault = b_node (
    token_or_i two_of_three (
      b_node (
        token_and_v
          (node miniscript_type_v
            (token_v (b_node (token_c (node miniscript_type_k (token_pk_k (key 2)))))))
          (b_node (token_older 1000)))))

-- The check, and the information of a script that has some, with all that they call.
sane : PolicyNode → Bool
unfolding is_miniscript_sane compute_miniscript_policy_ext_info within_limits compute_thresh_ops
    compute_thresh_stacksize info_thresh get_push_script_size sumcheck maxcheck info_0 info_1
    info_pk_k info_pk_h info_pk info_pkh info_multi info_multi_a info_older info_after info_hash
    info_andor info_and_v info_and_b info_and_n info_or_b info_or_c info_or_d info_or_i info_a
    info_s_n info_c info_d info_t info_v info_j info_l_u
sane a = is_miniscript_sane a miniscript_context_p2wsh

info : PolicyNode → ExtInfo
unfolding compute_miniscript_policy_ext_info within_limits compute_thresh_ops
    compute_thresh_stacksize info_thresh get_push_script_size sumcheck maxcheck info_0 info_1
    info_pk_k info_pk_h info_pk info_pkh info_multi info_multi_a info_older info_after info_hash
    info_andor info_and_v info_and_b info_and_n info_or_b info_or_c info_or_d info_or_i info_a
    info_s_n info_c info_d info_t info_v info_j info_l_u
info a = elim (compute_miniscript_policy_ext_info miniscript_context_p2wsh a) [
  | none ↦ blank
  | some x ↦ x
]

vault_is_sane : is_miniscript_sane vault miniscript_context_p2wsh ≡ true
unfolding sane
vault_is_sane = refl

vault_satisfactions : length (satisfy vault) ≡ 4
unfolding satisfy
vault_satisfactions = refl

vault-IsParsed : IsParsed vault
unfolding IsParsed
vault-IsParsed = ((refl, (tt, (tt, (tt, tt)))), ((tt, tt), tt))

-- {multi_a(2,@0,@1,@2),sortedmulti_a(..)}: the second leaf is no miniscript.
abbrev leaves : TapTree
leaves = tree_branch (tree_leaf (b_node (token_multi_a 2 3 (key 0 ∷ key 1 ∷ key 2 ∷ [])))) (
    tree_leaf (
      policy_node
        (record {
          is_miniscript = false;
          miniscript_type = miniscript_type_b;
          miniscript_mod_z = false;
          miniscript_mod_o = false;
          miniscript_mod_n = false;
          miniscript_mod_d = false;
          miniscript_mod_u = false;
        })
        (token_sortedmulti 1 1 [])))

leaves_are_sane : is_taptree_miniscript_sane leaves ≡ true
unfolding is_taptree_miniscript_sane sane
leaves_are_sane = refl

-- wsh(or_i(..)) and tr(@3,{..})
abbrev wsh_vault : PolicyNode
wsh_vault = node miniscript_type_b (token_wsh vault)

abbrev tr_leaves : PolicyNode
tr_leaves = node miniscript_type_b (token_tr_tree (key 3) leaves)

tr_leaves_are_sane : policy_scripts_sane tr_leaves ≡ true
unfolding policy_scripts_sane
tr_leaves_are_sane = leaves_are_sane

wsh_vault_is_sane : policy_scripts_sane wsh_vault ≡ true
unfolding policy_scripts_sane wsh_sane
wsh_vault_is_sane = vault_is_sane

wsh_vault-IsParsed : AllNodes IsParsed (miniscripts wsh_vault)
unfolding miniscripts miniscript_itself
wsh_vault-IsParsed = (vault-IsParsed, tt)

sane_policy-IsSafe_example : AllNodes (λ a. All IsSafe (satisfy a)) (miniscripts wsh_vault)
sane_policy-IsSafe_example = sane_policy-IsSafe wsh_vault wsh_vault-IsParsed wsh_vault_is_sane

vault_has_info :
    compute_miniscript_policy_ext_info miniscript_context_p2wsh vault ≡ some (info vault)
unfolding info
vault_has_info = refl

stack_sizes-IsBound_example :
    All (λ w. IsBound (info vault).ss.sat (length w.items)) (satisfy vault)
    × All (λ w. IsBound (info vault).ss.dsat (length w.items)) (dissatisfy vault)
stack_sizes-IsBound_example =
    stack_sizes-IsBound miniscript_context_p2wsh vault (info vault) vault-IsParsed vault_has_info

-- or_b(dv:older(1),a:dv:older(2)): both branches are satisfied without a signature.
abbrev malleable : PolicyNode
malleable = b_node (
    token_or_b (b_node (token_d (node miniscript_type_v (token_v (b_node (token_older 1)))))) (
      node miniscript_type_w
        (token_a (b_node (token_d (node miniscript_type_v (token_v (b_node (token_older 2)))))))))

malleable_alone : (info malleable).m ≡ false
unfolding info
malleable_alone = refl

-- thresh(2,or_b(..),s:pk(@0)): the flag of a child does not reach the `thresh`, which is accepted.
malleable_in_thresh :
    is_miniscript_sane
      (b_node (
        token_thresh 2 2 (
          script_next malleable (
            script_next
              (node miniscript_type_w (token_s (b_node (token_pk (key 0)))))
              script_end))))
      miniscript_context_p2wsh
    ≡ true
unfolding sane
malleable_in_thresh = refl

-- and_n(X,Y) and andor(X,Y,0) for X = dv:older(1) and Y = older(2).
abbrev optional_lock : PolicyNode
optional_lock = b_node (token_d (node miniscript_type_v (token_v (b_node (token_older 1)))))

abbrev and_n_node : PolicyNode
and_n_node = b_node (token_and_n optional_lock (b_node (token_older 2)))

abbrev andor_node : PolicyNode
andor_node = b_node (token_andor optional_lock (b_node (token_older 2)) (b_node token_0))

and_n_malleable : ((info and_n_node).m ≡ false) × ((info andor_node).m ≡ true)
unfolding info
and_n_malleable = (refl, refl)

-- l:older(1) and or_i(0,older(1)).
dissatisfaction_ops :
    ((info (b_node (token_l (b_node (token_older 1))))).ops.dsat ≡ 0xffff)
    × ((info (b_node (token_or_i (b_node token_0) (b_node (token_older 1))))).ops.dsat ≡ 0)
unfolding info
dissatisfaction_ops = (refl, refl)
