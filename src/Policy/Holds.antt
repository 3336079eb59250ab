-- ===== src/Policy/Holds.antt =====
-- Calls of `compute_miniscript_policy_ext_info` of src/common/wallet.c that succeed, one at a time.
use ledger_babylon_app.Common.{
  ◌≡◌, refl, List, true, false, Option, none, some, if◌then◌else◌, Bool, sym, ◌&&◌, ◌||◌, arith,
  inl, inr, subst, Option-cases,
}
use ledger_babylon_app.Policy.{
  PolicyNode, policy_node, Token, ScriptList, script_next, MiniscriptContext, token_pk_k,
  token_pk_h, token_andor, token_and_v, token_or_i,
}
use ledger_babylon_app.Policy.Costs.{ExtInfo}
use ledger_babylon_app.Policy.Leaves.{info_pk_k, info_pk_h}
use ledger_babylon_app.Policy.Joints.{info_andor, info_and_v, info_or_i}
use ledger_babylon_app.Policy.ExtInfo.{
  compute_miniscript_policy_ext_info, token_info, of_one, of_two, of_three, of_list, cons_info,
}
use ledger_babylon_app.Policy.Solutions.{satisfy, dissatisfy, IsKeyNode, IsKeyToken}
use ledger_babylon_app.Policy.Rules.{Judgement, Each}

-- The call fails, or its result has the property.
abbrev pub Holds {ℓ} : {A : Type ℓ} → Option A → (A → Type 0) → Type 0
Holds none P = Unit
Holds (some a) P = P a

pub Holds-one :
    (P R : ExtInfo → Type 0) (f : ExtInfo → ExtInfo) (o : Option ExtInfo)
    → ((x : ExtInfo) → P x → R (f x))
    → Holds o P
    → Holds (of_one f o) R
Holds-one P R f none h p = tt
Holds-one P R f (some x) h p = h x p

pub Holds-two :
    (P Q R : ExtInfo → Type 0) (f : ExtInfo → ExtInfo → ExtInfo) (o o' : Option ExtInfo)
    → ((x y : ExtInfo) → P x → Q y → R (f x y))
    → Holds o P
    → Holds o' Q
    → Holds (of_two f o o') R
Holds-two P Q R f none o' h p q = tt
Holds-two P Q R f (some x) none h p q = tt
Holds-two P Q R f (some x) (some y) h p q = h x y p q

pub Holds-three :
    (P Q T R : ExtInfo → Type 0) (f : ExtInfo → ExtInfo → ExtInfo → ExtInfo)
    (o o' o'' : Option ExtInfo)
    → ((x y z : ExtInfo) → P x → Q y → T z → R (f x y z))
    → Holds o P
    → Holds o' Q
    → Holds o'' T
    → Holds (of_three f o o' o'') R
Holds-three P Q T R f none o' o'' h p q r = tt
Holds-three P Q T R f (some x) none o'' h p q r = tt
Holds-three P Q T R f (some x) (some y) none h p q r = tt
Holds-three P Q T R f (some x) (some y) (some z) h p q r = h x y z p q r

pub Holds-if :
    (b : Bool) (o : Option ExtInfo) (P : ExtInfo → Type 0)
    → Holds o P
    → Holds (if b then o else none) P
Holds-if true o P h = h
Holds-if false o P h = tt

pub Holds-list :
    (f : List ExtInfo → Option ExtInfo) (o : Option (List ExtInfo)) (P : List ExtInfo → Type 0)
    (R : ExtInfo → Type 0)
    → ((xs : List ExtInfo) (x : ExtInfo) → P xs → f xs ≡ some x → R x)
    → Holds o P
    → Holds (of_list f o) R
Holds-list f none P R h p = tt
Holds-list f (some xs) P R h p = elim (Option-cases (f xs)) [
  | inl e ↦ subst (λ o. Holds o R) (sym e) tt
  | inr (x, e) ↦ subst (λ o. Holds o R) (sym e) (h xs x p e)
]

pub Holds-cons :
    (P : Judgement) (a : PolicyNode) (rest : ScriptList) (o : Option ExtInfo)
    (os : Option (List ExtInfo))
    → Holds o (λ x. P x (satisfy a) (dissatisfy a))
    → Holds os (λ xs. Each P xs rest)
    → Holds (cons_info o os) (λ xs. Each P xs (script_next a rest))
Holds-cons P a rest none os p q = tt
Holds-cons P a rest (some x) none p q = tt
Holds-cons P a rest (some x) (some xs) p q = (p, q)

both_true : (a b : Bool) → a ≡ true → b ≡ true → (a && b) ≡ true
both_true a b p q = ground arith

either_true : (a b : Bool) → b ≡ true → (a || b) ≡ true
either_true a b q = ground arith

pub Holds-and :
    (o : Option ExtInfo) (P Q : ExtInfo → Type 0) → Holds o P → Holds o Q → Holds o (λ x. P x × Q x)
Holds-and none P Q p q = tt
Holds-and (some x) P Q p q = (p, q)

-- An expression of type K always asks for a signature.
abbrev pub Signed : ExtInfo → Type 0
Signed x = x.s ≡ true

abbrev Any : ExtInfo → Type 0
Any x = Unit

module _ (ctx : MiniscriptContext) where
  Any-info : (o : Option ExtInfo) → Holds o Any
  Any-info none = tt
  Any-info (some x) = tt

  mutual
    unfolding compute_miniscript_policy_ext_info token_info IsKeyNode info_pk_k info_pk_h info_andor
        info_and_v info_or_i

    pub key_signed :
        (a : PolicyNode) → IsKeyNode a → Holds (compute_miniscript_policy_ext_info ctx a) Signed
    key_signed (policy_node flags token) h =
        Holds-if flags.is_miniscript (token_info ctx token) Signed (key_token_signed token h)

    key_token_signed : (t : Token) → IsKeyToken t → Holds (token_info ctx t) Signed
    key_token_signed (token_pk_k key) h = refl
    key_token_signed (token_pk_h key) h = refl
    key_token_signed (token_andor a b c) h =
        Holds-three Any Signed Signed Signed info_andor (compute_miniscript_policy_ext_info ctx a)
          (compute_miniscript_policy_ext_info ctx b) (compute_miniscript_policy_ext_info ctx c)
          (λ x y z u p q. both_true z.s (x.s || y.s) q (either_true x.s y.s p))
          (Any-info (compute_miniscript_policy_ext_info ctx a)) (key_signed b h.0)
          (key_signed c h.1)
    key_token_signed (token_and_v a b) h =
        Holds-two Any Signed Signed info_and_v (compute_miniscript_policy_ext_info ctx a)
          (compute_miniscript_policy_ext_info ctx b) (λ x y u p. either_true x.s y.s p)
          (Any-info (compute_miniscript_policy_ext_info ctx a)) (key_signed b h)
    key_token_signed (token_or_i a b) h =
        Holds-two Signed Signed Signed info_or_i (compute_miniscript_policy_ext_info ctx a)
          (compute_miniscript_policy_ext_info ctx b) (λ x y p q. both_true x.s y.s p q)
          (key_signed a h.0) (key_signed b h.1)
    key_token_signed _ h = absurd h
