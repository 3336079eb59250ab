-- ===== src/Policy/Sane.antt =====
-- What the sanity checks of src/handler/lib/policy.c guarantee of a miniscript, and what the figures of
-- src/common/wallet.c say of one that need not be sane.
use ledger_babylon_app.Common.{
  ◌≤◌, ◌≡◌, arith, refl, subst, List, [], ◌∷◌, ◌++◌, length, All, Option, none, some, true, false,
  not, ◌&&◌, ◌||◌, Bool, if◌then◌else◌,
}
use ledger_babylon_app.Policy.{
  PolicyNode, policy_node, MiniscriptContext, miniscript_context_tapscript,
  miniscript_context_p2wsh, token_wsh, token_tr_tree, TapTree, tree_leaf, tree_branch,
}
use ledger_babylon_app.Policy.Costs.{ExtInfo}
use ledger_babylon_app.Policy.ExtInfo.{
  compute_miniscript_policy_ext_info, within_limits, is_miniscript_sane, is_taptree_miniscript_sane,
  wsh_sane, policy_scripts_sane, is_type_b,
}
use ledger_babylon_app.Policy.Solutions.{Solution, satisfy, dissatisfy, IsParsed, IsSigned}
use ledger_babylon_app.Policy.Rules.{Judgement, Laws}
use ledger_babylon_app.Policy.Holds.{Holds}
use ledger_babylon_app.Policy.Analysis.{analysis_holds}
use ledger_babylon_app.Policy.Bounds.{IsBound}
use ledger_babylon_app.Policy.Tables.{Stacked}
use ledger_babylon_app.Policy.Stack.{Stacked-Laws}
use ledger_babylon_app.Policy.Signing.{Signed}
use ledger_babylon_app.Policy.Signatures.{Signed-Laws}
use ledger_babylon_app.Policy.Locked.{IsUnmixed, Locked}
use ledger_babylon_app.Policy.Choices.{Timed}
use ledger_babylon_app.Policy.Timelocks.{Timed-Laws}

-- A judgement that all tokens keep holds of what the call computes.
judged :
    (ctx : MiniscriptContext) (P : Judgement) (a : PolicyNode) (info : ExtInfo)
    → Laws ctx P
    → IsParsed a
    → compute_miniscript_policy_ext_info ctx a ≡ some info
    → P info (satisfy a) (dissatisfy a)
judged ctx P a info laws h e =
    subst (λ o. Holds o (λ x. P x (satisfy a) (dissatisfy a))) e (analysis_holds ctx P laws a h)

-- If `compute_miniscript_policy_ext_info` succeeds on a script that the parser lets through, the stack
-- sizes that it returns bound all canonical solutions: unless it is saturated, `ss.sat` is at least the
-- number of items of every satisfaction, and `ss.dsat` at least that of every dissatisfaction; if there is
-- a solution, the figure is not -1.
pub stack_sizes-IsBound :
    (ctx : MiniscriptContext) (a : PolicyNode) (info : ExtInfo)
    → IsParsed a
    → compute_miniscript_policy_ext_info ctx a ≡ some info
    → All (λ w. IsBound info.ss.sat (length w.items)) (satisfy a)
      × All (λ w. IsBound info.ss.dsat (length w.items)) (dissatisfy a)
stack_sizes-IsBound ctx a info h e = judged ctx Stacked a info (Stacked-Laws ctx) h e

-- What a sane script promises of a satisfaction.
abbrev pub IsSafe : Solution → Type 0
IsSafe w = IsSigned w × (length w.items ≤ 100) × IsUnmixed w.locks

Checked : ExtInfo → Type 0
Checked info = (info.s ≡ true) × (info.k ≡ true) × (info.ss.sat ≤ 100)

limits : (info : ExtInfo) → within_limits info ≡ true → Checked info
unfolding within_limits Checked
limits info h = ground arith

judged_sane :
    (o : Option ExtInfo)
    → elim o [ none ↦ false | some info ↦ within_limits info ] ≡ true
    → (info : ExtInfo) × (o ≡ some info) × Checked info
judged_sane none h = cc
judged_sane (some info) h = (info, refl, limits info h)

last_of : (a b c : Bool) → (a && b && c) ≡ true → c ≡ true
last_of a b c h = ground arith

safe :
    (info : ExtInfo) (xs : List Solution)
    → info.k ≡ true
    → info.ss.sat ≤ 100
    → All IsSigned xs
    → All (λ w. IsBound info.ss.sat (length w.items)) xs
    → All (λ w. Locked info w.locks) xs
    → All IsSafe xs
safe info [] k v p q r = tt
safe info (w ∷ xs) k v p q r = ((p.0, omega (arith, q.0, v), r.0.1 k), safe info xs k v p.1 q.1 r.1)

sane_script-IsSafe :
    (ctx : MiniscriptContext) (a : PolicyNode)
    → IsParsed a
    → is_miniscript_sane a ctx ≡ true
    → All IsSafe (satisfy a)
unfolding is_miniscript_sane Checked
sane_script-IsSafe ctx (policy_node flags token) h e =
    let a = policy_node flags token in
    let (info, found, (s, k, v)) =
      judged_sane (compute_miniscript_policy_ext_info ctx a)
        (last_of flags.is_miniscript (is_type_b flags.miniscript_type) _ e) in
    safe info (satisfy a) k v ((judged ctx Signed a info (Signed-Laws ctx) h found).0 s)
      (judged ctx Stacked a info (Stacked-Laws ctx) h found).0
      (judged ctx Timed a info (Timed-Laws ctx) h found).0

-- The scripts of a tree that the check looks at.
unfoldable pub miniscript_itself : PolicyNode → List PolicyNode
miniscript_itself (policy_node flags token) =
    if flags.is_miniscript then policy_node flags token ∷ [] else []

unfoldable pub miniscript_leaves : TapTree → List PolicyNode
unfolding miniscript_itself
miniscript_leaves (tree_leaf a) = miniscript_itself a
miniscript_leaves (tree_branch left right) = miniscript_leaves left ++ miniscript_leaves right

abbrev pub AllNodes : (PolicyNode → Type 0) → List PolicyNode → Type 0
AllNodes P [] = Unit
AllNodes P (a ∷ rest) = P a × AllNodes P rest

AllNodes-append :
    (P : PolicyNode → Type 0) (xs ys : List PolicyNode)
    → AllNodes P xs
    → AllNodes P ys
    → AllNodes P (xs ++ ys)
AllNodes-append P [] ys p q = q
AllNodes-append P (x ∷ xs) ys p q = (p.0, AllNodes-append P xs ys p.1 q)

AllNodes-parts :
    (P : PolicyNode → Type 0) (xs ys : List PolicyNode)
    → AllNodes P (xs ++ ys)
    → AllNodes P xs × AllNodes P ys
AllNodes-parts P [] ys p = (tt, p)
AllNodes-parts P (x ∷ xs) ys p = let (q, r) = AllNodes-parts P xs ys p.1 in ((p.0, q), r)

and_both : (a b : Bool) → (a && b) ≡ true → (a ≡ true) × (b ≡ true)
and_both a b h = ground arith

leaf-IsSafe :
    (ctx : MiniscriptContext) (b : Bool) (a : PolicyNode)
    → (not b || is_miniscript_sane a ctx) ≡ true
    → AllNodes IsParsed (if b then a ∷ [] else [])
    → AllNodes (λ n. All IsSafe (satisfy n)) (if b then a ∷ [] else [])
leaf-IsSafe ctx true a e h = (sane_script-IsSafe ctx a h.0 e, tt)
leaf-IsSafe ctx false a e h = tt

sane_taptree-IsSafe :
    (tree : TapTree)
    → AllNodes IsParsed (miniscript_leaves tree)
    → is_taptree_miniscript_sane tree ≡ true
    → AllNodes (λ a. All IsSafe (satisfy a)) (miniscript_leaves tree)
unfolding miniscript_leaves is_taptree_miniscript_sane
sane_taptree-IsSafe (tree_leaf (policy_node flags token)) h e =
    leaf-IsSafe miniscript_context_tapscript flags.is_miniscript (policy_node flags token) e h
sane_taptree-IsSafe (tree_branch left right) h e =
    let (p, q) = AllNodes-parts IsParsed (miniscript_leaves left) (miniscript_leaves right) h in
    let (l, r) = and_both (is_taptree_miniscript_sane left) (is_taptree_miniscript_sane right) e in
    AllNodes-append (λ a. All IsSafe (satisfy a)) (miniscript_leaves left) (miniscript_leaves right)
      (sane_taptree-IsSafe left p l) (sane_taptree-IsSafe right q r)

-- The miniscripts of a policy: what is under its `wsh`, or the leaves of its tree.
unfoldable pub miniscripts : PolicyNode → List PolicyNode
unfolding miniscript_leaves
miniscripts (policy_node flags (token_wsh inner)) = miniscript_itself inner
miniscripts (policy_node flags (token_tr_tree key tree)) = miniscript_leaves tree
miniscripts _ = []

wsh-IsSafe :
    (inner : PolicyNode)
    → AllNodes IsParsed (miniscript_itself inner)
    → wsh_sane inner ≡ true
    → AllNodes (λ a. All IsSafe (satisfy a)) (miniscript_itself inner)
unfolding miniscript_itself wsh_sane
wsh-IsSafe (policy_node flags token) h e =
    leaf-IsSafe miniscript_context_p2wsh flags.is_miniscript (policy_node flags token) e h

-- If `is_policy_sane` lets the scripts of a policy through, and these are as the parser leaves them, then
-- every canonical satisfaction of every miniscript of the policy, under `wsh` or in the tree of a `tr`,
-- holds a signature, takes at most 100 stack items, and does not depend on a time-based and a
-- height-based lock of the same kind together.
pub sane_policy-IsSafe :
    (policy : PolicyNode)
    → AllNodes IsParsed (miniscripts policy)
    → policy_scripts_sane policy ≡ true
    → AllNodes (λ a. All IsSafe (satisfy a)) (miniscripts policy)
unfolding miniscripts policy_scripts_sane
sane_policy-IsSafe (policy_node flags (token_wsh inner)) h e = wsh-IsSafe inner h e
sane_policy-IsSafe (policy_node flags (token_tr_tree key tree)) h e = sane_taptree-IsSafe tree h e
sane_policy-IsSafe (policy_node flags _) h e = tt
