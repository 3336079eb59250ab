-- ===== src/Policy/Rules.antt =====
-- What a predicate on the information of src/common/wallet.c must keep at each token.
use ledger_babylon_app.Common.{ℕ, ◌≡◌, List, [], ◌∷◌, ◌++◌, true, some, replicate, Bool}
use ledger_babylon_app.Policy.{ScriptList, script_end, script_next, MiniscriptContext}
use ledger_babylon_app.Policy.Costs.{ExtInfo}
use ledger_babylon_app.Policy.Leaves.{
  info_0, info_1, info_pk_k, info_pk_h, info_pk, info_pkh, info_multi, info_multi_a, info_older,
  info_after, info_hash,
}
use ledger_babylon_app.Policy.Joints.{
  info_andor, info_and_v, info_and_b, info_and_n, info_or_b, info_or_c, info_or_d, info_or_i,
}
use ledger_babylon_app.Policy.Wrappers.{
  info_a, info_s_n, info_c, info_d, info_t, info_v, info_j, info_l_u, info_thresh,
}
use ledger_babylon_app.Policy.Solutions.{
  Solution, satisfy, dissatisfy, choose, both, item, done, lock, of_items, placed, item_signature,
  item_key, item_preimage, item_zero, item_one, older_lock, after_lock, IsCount, list_length,
}

-- A predicate on the information and the solutions of a script.
abbrev pub Judgement : Type 1
Judgement = ExtInfo → List Solution → List Solution → Type 0

-- The scripts of a list have the information of another.
abbrev pub Each : Judgement → List ExtInfo → ScriptList → Type 0
Each P [] script_end = Unit
Each P (x ∷ xs) (script_next a rest) = P x (satisfy a) (dissatisfy a) × Each P xs rest
Each P _ _ = ⊥

-- Each token keeps the predicate.
pub record Laws (ctx : MiniscriptContext) (P : Judgement) : Type 0 where
  pub law_0 : P info_0 [] done
  pub law_1 : P info_1 done []
  pub law_pk_k : P (info_pk_k ctx) (item item_signature) (item item_zero)
  pub law_pk_h :
      P info_pk_h
        (both (item item_key) (item item_signature))
        (both (item item_key) (item item_zero))
  pub law_pk : P (info_pk ctx) (item item_signature) (item item_zero)
  pub law_pkh :
      P info_pkh
        (both (item item_key) (item item_signature))
        (both (item item_key) (item item_zero))
  pub law_multi :
      (k n : ℕ)
      → IsCount k n
      → P
          (info_multi k n)
          (of_items (replicate k item_signature ++ item_zero ∷ []) ∷ [])
          (of_items (replicate k item_zero ++ item_zero ∷ []) ∷ [])
  pub law_multi_a : (k n : ℕ) → IsCount k n → P (info_multi_a k n) (placed n k) (placed n 0)
  pub law_older : (n : ℕ) → P (info_older n) (lock (older_lock n)) []
  pub law_after : (n : ℕ) → P (info_after n) (lock (after_lock n)) []
  pub law_hash : (push : ℕ) → P (info_hash push) (item item_preimage) []
  pub law_andor :
      (x y z : ExtInfo) (SX DX SY DY SZ DZ : List Solution)
      → P x SX DX
      → P y SY DY
      → P z SZ DZ
      → P (info_andor x y z) (both SX SY ++ both DX SZ) (both DX DZ)
  pub law_and_v :
      (x y : ExtInfo) (SX DX SY DY : List Solution)
      → P x SX DX
      → P y SY DY
      → P (info_and_v x y) (both SX SY) ([])
  pub law_and_b :
      (x y : ExtInfo) (SX DX SY DY : List Solution)
      → P x SX DX
      → P y SY DY
      → P (info_and_b x y) (both SX SY) (both DX DY)
  pub law_and_n :
      (x y : ExtInfo) (SX DX SY DY : List Solution)
      → P x SX DX
      → P y SY DY
      → P (info_and_n x y) (both SX SY) (DX)
  pub law_or_b :
      (x y : ExtInfo) (SX DX SY DY : List Solution)
      → P x SX DX
      → P y SY DY
      → P (info_or_b x y) (both DX SY ++ both SX DY) (both DX DY)
  pub law_or_c :
      (x y : ExtInfo) (SX DX SY DY : List Solution)
      → P x SX DX
      → P y SY DY
      → P (info_or_c x y) (SX ++ both DX SY) ([])
  pub law_or_d :
      (x y : ExtInfo) (SX DX SY DY : List Solution)
      → P x SX DX
      → P y SY DY
      → P (info_or_d x y) (SX ++ both DX SY) (both DX DY)
  pub law_or_i :
      (x y : ExtInfo) (SX DX SY DY : List Solution)
      → P x SX DX
      → P y SY DY
      → P
          (info_or_i x y)
          (both (item item_one) SX ++ both (item item_zero) SY)
          (both (item item_one) DX ++ both (item item_zero) DY)
  pub law_s_n :
      (is_s : Bool) (x : ExtInfo) (S D : List Solution) → P x S D → P (info_s_n is_s x) S D
  pub law_c : (x : ExtInfo) (S D : List Solution) → x.s ≡ true → P x S D → P (info_c x) S D
  pub law_a : (x : ExtInfo) (S D : List Solution) → P x S D → P (info_a x) (S) (D)
  pub law_d :
      (x : ExtInfo) (S D : List Solution)
      → P x S D
      → P (info_d x) (both (item item_one) S) (item item_zero)
  pub law_t : (x : ExtInfo) (S D : List Solution) → P x S D → P (info_t x) (S) ([])
  pub law_v : (x : ExtInfo) (S D : List Solution) → P x S D → P (info_v x) (S) ([])
  pub law_j : (x : ExtInfo) (S D : List Solution) → P x S D → P (info_j x) (S) (item item_zero)
  pub law_l :
      (x : ExtInfo) (S D : List Solution)
      → P x S D
      → P (info_l_u x) (both (item item_zero) S) (item item_one ++ both (item item_zero) D)
  pub law_u :
      (x : ExtInfo) (S D : List Solution)
      → P x S D
      → P (info_l_u x) (both (item item_one) S) (both (item item_one) D ++ item item_zero)
  pub law_thresh :
      (k : ℕ) (list : ScriptList) (infos : List ExtInfo) (info : ExtInfo)
      → Each P infos list
      → info_thresh k (list_length list) infos ≡ some info
      → P info (choose k list) (choose 0 list)
