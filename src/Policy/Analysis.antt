-- ===== src/Policy/Analysis.antt =====
-- What holds of the information that src/common/wallet.c computes for a miniscript follows from what
-- each token does to it: one induction on the tree, for every predicate.
use ledger_babylon_app.Common.{◌≡◌, true, false, Option, some, sym, subst}
use ledger_babylon_app.Policy.{
  PolicyNode, policy_node, Token, ScriptList, script_end, script_next, MiniscriptContext, token_sh,
  token_wsh, token_pk, token_pkh, token_wpkh, token_multi, token_multi_a, token_sortedmulti,
  token_sortedmulti_a, token_tr, token_tr_tree, token_0, token_1, token_pk_k, token_pk_h,
  token_older, token_after, token_sha256, token_hash256, token_ripemd160, token_hash160,
  token_andor, token_and_v, token_and_b, token_and_n, token_or_b, token_or_c, token_or_d,
  token_or_i, token_thresh, token_a, token_s, token_c, token_t, token_d, token_v, token_j, token_n,
  token_l, token_u,
}
use ledger_babylon_app.Policy.Costs.{ExtInfo}
use ledger_babylon_app.Policy.Joints.{
  info_andor, info_and_v, info_and_b, info_and_n, info_or_b, info_or_c, info_or_d, info_or_i,
}
use ledger_babylon_app.Policy.Wrappers.{
  info_a, info_s_n, info_c, info_d, info_t, info_v, info_j, info_l_u, info_thresh,
}
use ledger_babylon_app.Policy.ExtInfo.{compute_miniscript_policy_ext_info, token_info, list_info}
use ledger_babylon_app.Policy.Solutions.{
  satisfy, dissatisfy, satisfy_token, dissatisfy_token, choose, IsParsed, IsParsedToken, AreParsed,
}
use ledger_babylon_app.Policy.Rules.{Judgement, Each, Laws}
use ledger_babylon_app.Policy.Holds.{
  Holds, Holds-one, Holds-two, Holds-three, Holds-if, Holds-list, Holds-cons, Holds-and, Signed,
  key_signed,
}

module _ (ctx : MiniscriptContext) (P : Judgement) (laws : Laws ctx P) where
  abbrev run : PolicyNode → Option ExtInfo
  run = compute_miniscript_policy_ext_info ctx

  abbrev Good : PolicyNode → ExtInfo → Type 0
  Good a x = P x (satisfy a) (dissatisfy a)

  abbrev GoodToken : Token → ExtInfo → Type 0
  GoodToken t x = P x (satisfy_token t) (dissatisfy_token t)

  mutual
    unfolding compute_miniscript_policy_ext_info token_info list_info satisfy dissatisfy
        satisfy_token dissatisfy_token choose IsParsed IsParsedToken AreParsed

    pub analysis_holds : (a : PolicyNode) → IsParsed a → Holds (run a) (Good a)
    analysis_holds (policy_node flags token) h =
        Holds-if flags.is_miniscript (token_info ctx token) (GoodToken token) (token_holds token h)

    token_holds : (t : Token) → IsParsedToken t → Holds (token_info ctx t) (GoodToken t)
    token_holds token_0 h = laws.law_0
    token_holds token_1 h = laws.law_1
    token_holds (token_pk_k key) h = laws.law_pk_k
    token_holds (token_pk_h key) h = laws.law_pk_h
    token_holds (token_pk key) h = laws.law_pk
    token_holds (token_pkh key) h = laws.law_pkh
    token_holds (token_multi k n keys) h = laws.law_multi k n h
    token_holds (token_multi_a k n keys) h = laws.law_multi_a k n h
    token_holds (token_older n) h = laws.law_older n
    token_holds (token_after n) h = laws.law_after n
    token_holds (token_sha256 hash) h = laws.law_hash 33
    token_holds (token_hash256 hash) h = laws.law_hash 33
    token_holds (token_ripemd160 hash) h = laws.law_hash 21
    token_holds (token_hash160 hash) h = laws.law_hash 21
    token_holds (token_andor a b c) h =
        Holds-three (Good a) (Good b) (Good c) (GoodToken (token_andor a b c)) info_andor (run a)
          (run b) (run c)
          (λ x y z.
            laws.law_andor x y z (satisfy a) (dissatisfy a) (satisfy b) (dissatisfy b) (satisfy c)
              (dissatisfy c))
          (analysis_holds a h.0) (analysis_holds b h.1) (analysis_holds c h.2)
    token_holds (token_and_v a b) h =
        Holds-two (Good a) (Good b) (GoodToken (token_and_v a b)) info_and_v (run a) (run b)
          (λ x y. laws.law_and_v x y (satisfy a) (dissatisfy a) (satisfy b) (dissatisfy b))
          (analysis_holds a h.0) (analysis_holds b h.1)
    token_holds (token_and_b a b) h =
        Holds-two (Good a) (Good b) (GoodToken (token_and_b a b)) info_and_b (run a) (run b)
          (λ x y. laws.law_and_b x y (satisfy a) (dissatisfy a) (satisfy b) (dissatisfy b))
          (analysis_holds a h.0) (analysis_holds b h.1)
    token_holds (token_and_n a b) h =
        Holds-two (Good a) (Good b) (GoodToken (token_and_n a b)) info_and_n (run a) (run b)
          (λ x y. laws.law_and_n x y (satisfy a) (dissatisfy a) (satisfy b) (dissatisfy b))
          (analysis_holds a h.0) (analysis_holds b h.1)
    token_holds (token_or_b a b) h =
        Holds-two (Good a) (Good b) (GoodToken (token_or_b a b)) info_or_b (run a) (run b)
          (λ x y. laws.law_or_b x y (satisfy a) (dissatisfy a) (satisfy b) (dissatisfy b))
          (analysis_holds a h.0) (analysis_holds b h.1)
    token_holds (token_or_c a b) h =
        Holds-two (Good a) (Good b) (GoodToken (token_or_c a b)) info_or_c (run a) (run b)
          (λ x y. laws.law_or_c x y (satisfy a) (dissatisfy a) (satisfy b) (dissatisfy b))
          (analysis_holds a h.0) (analysis_holds b h.1)
    token_holds (token_or_d a b) h =
        Holds-two (Good a) (Good b) (GoodToken (token_or_d a b)) info_or_d (run a) (run b)
          (λ x y. laws.law_or_d x y (satisfy a) (dissatisfy a) (satisfy b) (dissatisfy b))
          (analysis_holds a h.0) (analysis_holds b h.1)
    token_holds (token_or_i a b) h =
        Holds-two (Good a) (Good b) (GoodToken (token_or_i a b)) info_or_i (run a) (run b)
          (λ x y. laws.law_or_i x y (satisfy a) (dissatisfy a) (satisfy b) (dissatisfy b))
          (analysis_holds a h.0) (analysis_holds b h.1)
    token_holds (token_thresh k n list) h =
        Holds-list (info_thresh k n) (list_info ctx list) (λ xs. Each P xs list)
          (GoodToken (token_thresh k n list))
          (λ xs x p e.
            laws.law_thresh k list xs x p (subst (λ m. info_thresh k m xs ≡ some x) (sym h.0) e))
          (list_holds list h.1)
    token_holds (token_c a) h =
        Holds-one (λ x. Signed x × Good a x) (GoodToken (token_c a)) info_c (run a)
          (λ x p. laws.law_c x (satisfy a) (dissatisfy a) p.0 p.1)
          (Holds-and (run a) Signed (Good a) (key_signed ctx a h.0) (analysis_holds a h.1))
    token_holds (token_s a) h =
        Holds-one (Good a) (GoodToken (token_s a)) (info_s_n true) (run a)
          (λ x. laws.law_s_n true x (satisfy a) (dissatisfy a)) (analysis_holds a h)
    token_holds (token_n a) h =
        Holds-one (Good a) (GoodToken (token_n a)) (info_s_n false) (run a)
          (λ x. laws.law_s_n false x (satisfy a) (dissatisfy a)) (analysis_holds a h)
    token_holds (token_l a) h =
        Holds-one (Good a) (GoodToken (token_l a)) info_l_u (run a)
          (λ x. laws.law_l x (satisfy a) (dissatisfy a)) (analysis_holds a h)
    token_holds (token_u a) h =
        Holds-one (Good a) (GoodToken (token_u a)) info_l_u (run a)
          (λ x. laws.law_u x (satisfy a) (dissatisfy a)) (analysis_holds a h)
    token_holds (token_a a) h =
        Holds-one (Good a) (GoodToken (token_a a)) info_a (run a)
          (λ x. laws.law_a x (satisfy a) (dissatisfy a)) (analysis_holds a h)
    token_holds (token_d a) h =
        Holds-one (Good a) (GoodToken (token_d a)) info_d (run a)
          (λ x. laws.law_d x (satisfy a) (dissatisfy a)) (analysis_holds a h)
    token_holds (token_t a) h =
        Holds-one (Good a) (GoodToken (token_t a)) info_t (run a)
          (λ x. laws.law_t x (satisfy a) (dissatisfy a)) (analysis_holds a h)
    token_holds (token_v a) h =
        Holds-one (Good a) (GoodToken (token_v a)) info_v (run a)
          (λ x. laws.law_v x (satisfy a) (dissatisfy a)) (analysis_holds a h)
    token_holds (token_j a) h =
        Holds-one (Good a) (GoodToken (token_j a)) info_j (run a)
          (λ x. laws.law_j x (satisfy a) (dissatisfy a)) (analysis_holds a h)
    token_holds (token_sortedmulti threshold n keys) h = tt
    token_holds (token_sortedmulti_a threshold n keys) h = tt
    token_holds (token_wpkh key) h = tt
    token_holds (token_sh a) h = tt
    token_holds (token_wsh a) h = tt
    token_holds (token_tr key) h = tt
    token_holds (token_tr_tree key tree) h = tt

    list_holds :
        (list : ScriptList) → AreParsed list → Holds (list_info ctx list) (λ xs. Each P xs list)
    list_holds script_end h = tt
    list_holds (script_next a rest) h =
        Holds-cons P a rest (run a) (list_info ctx rest) (analysis_holds a h.0)
          (list_holds rest h.1)
