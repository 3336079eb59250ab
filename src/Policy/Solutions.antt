-- ===== src/Policy/Solutions.antt =====
-- An independent description of a miniscript: its canonical satisfactions and dissatisfactions, from
-- the table of basic satisfactions of the miniscript reference. The analysis of src/common/wallet.c is
-- judged by it.
use ledger_babylon_app.Common.{
  ℕ, zero, suc, ◌≤◌, ◌<◌, ◌≡◌, List, [], ◌∷◌, ◌++◌, map, Bool, true, false, ◌||◌, replicate, leb,
  if◌then◌else◌,
}
use ledger_babylon_app.Policy.{
  PolicyNode, policy_node, Token, ScriptList, script_end, script_next, token_pk, token_pkh,
  token_multi, token_multi_a, token_0, token_1, token_pk_k, token_pk_h, token_older, token_after,
  token_sha256, token_hash256, token_ripemd160, token_hash160, token_andor, token_and_v,
  token_and_b, token_and_n, token_or_b, token_or_c, token_or_d, token_or_i, token_thresh, token_a,
  token_s, token_c, token_t, token_d, token_v, token_j, token_n, token_l, token_u,
}
use ledger_babylon_app.Policy.Leaves.{is_time_sequence, locktime_threshold}

pub data Item : Type 0 where
  item_signature item_key item_preimage item_zero item_one : Item

-- The kinds of timelocks that must have passed.
pub record Locks : Type 0 where
  pub csv_time : Bool
  pub csv_height : Bool
  pub cltv_time : Bool
  pub cltv_height : Bool

-- The items of a witness from the top of the stack, and the timelocks.
pub record Solution : Type 0 where
  pub items : List Item
  pub locks : Locks

abbrev pub no_locks : Locks
no_locks = record { csv_time = false; csv_height = false; cltv_time = false; cltv_height = false }

abbrev pub of_items : List Item → Solution
of_items items = record { items = items; locks = no_locks }

abbrev pub union : Locks → Locks → Locks
union a b = record {
  csv_time = a.csv_time || b.csv_time;
  csv_height = a.csv_height || b.csv_height;
  cltv_time = a.cltv_time || b.cltv_time;
  cltv_height = a.cltv_height || b.cltv_height;
}

abbrev pub join : Solution → Solution → Solution
join a b = record { items = a.items ++ b.items; locks = union a.locks b.locks }

-- All joins of a solution of the one and a solution of the other.
unfoldable pub both : List Solution → List Solution → List Solution
both [] ys = []
both (x ∷ xs) ys = map (join x) ys ++ both xs ys

abbrev pub item : Item → List Solution
item it = of_items (it ∷ []) ∷ []

abbrev pub done : List Solution
done = of_items [] ∷ []

-- `k` signatures among `n` places.
unfoldable pub placed : ℕ → ℕ → List Solution
unfolding both
placed zero zero = done
placed zero (suc k) = []
placed (suc n) zero = both (item item_zero) (placed n zero)
placed (suc n) (suc k) =
    both (item item_signature) (placed n k) ++ both (item item_zero) (placed n (suc k))

abbrev pub older_lock : ℕ → Locks
older_lock n =
    if is_time_sequence n
    then record no_locks { csv_time = true }
    else record no_locks { csv_height = true }

abbrev pub after_lock : ℕ → Locks
after_lock n =
    if leb locktime_threshold n
    then record no_locks { cltv_time = true }
    else record no_locks { cltv_height = true }

abbrev pub lock : Locks → List Solution
lock l = record { items = []; locks = l } ∷ []

unfoldable mutual
  unfolding both placed

  pub satisfy : PolicyNode → List Solution
  satisfy (policy_node flags token) = satisfy_token token

  pub dissatisfy : PolicyNode → List Solution
  dissatisfy (policy_node flags token) = dissatisfy_token token

  pub satisfy_token : Token → List Solution
  satisfy_token token_0 = []
  satisfy_token token_1 = done
  satisfy_token (token_pk_k key) = item item_signature
  satisfy_token (token_pk_h key) = both (item item_key) (item item_signature)
  satisfy_token (token_pk key) = item item_signature
  satisfy_token (token_pkh key) = both (item item_key) (item item_signature)
  satisfy_token (token_multi k n keys) =
      of_items (replicate k item_signature ++ item_zero ∷ []) ∷ []
  satisfy_token (token_multi_a k n keys) = placed n k
  satisfy_token (token_older n) = lock (older_lock n)
  satisfy_token (token_after n) = lock (after_lock n)
  satisfy_token (token_sha256 hash) = item item_preimage
  satisfy_token (token_hash256 hash) = item item_preimage
  satisfy_token (token_ripemd160 hash) = item item_preimage
  satisfy_token (token_hash160 hash) = item item_preimage
  satisfy_token (token_andor a b c) =
      both (satisfy a) (satisfy b) ++ both (dissatisfy a) (satisfy c)
  satisfy_token (token_and_v a b) = both (satisfy a) (satisfy b)
  satisfy_token (token_and_b a b) = both (satisfy a) (satisfy b)
  satisfy_token (token_and_n a b) = both (satisfy a) (satisfy b)
  satisfy_token (token_or_b a b) =
      both (dissatisfy a) (satisfy b) ++ both (satisfy a) (dissatisfy b)
  satisfy_token (token_or_c a b) = satisfy a ++ both (dissatisfy a) (satisfy b)
  satisfy_token (token_or_d a b) = satisfy a ++ both (dissatisfy a) (satisfy b)
  satisfy_token (token_or_i a b) =
      both (item item_one) (satisfy a) ++ both (item item_zero) (satisfy b)
  satisfy_token (token_thresh k n list) = choose k list
  satisfy_token (token_a a) = satisfy a
  satisfy_token (token_s a) = satisfy a
  satisfy_token (token_n a) = satisfy a
  satisfy_token (token_c a) = satisfy a
  satisfy_token (token_d a) = both (item item_one) (satisfy a)
  satisfy_token (token_t a) = satisfy a
  satisfy_token (token_v a) = satisfy a
  satisfy_token (token_j a) = satisfy a
  satisfy_token (token_l a) = both (item item_zero) (satisfy a)
  satisfy_token (token_u a) = both (item item_one) (satisfy a)
  satisfy_token _ = []

  pub dissatisfy_token : Token → List Solution
  dissatisfy_token token_0 = done
  dissatisfy_token (token_pk_k key) = item item_zero
  dissatisfy_token (token_pk_h key) = both (item item_key) (item item_zero)
  dissatisfy_token (token_pk key) = item item_zero
  dissatisfy_token (token_pkh key) = both (item item_key) (item item_zero)
  dissatisfy_token (token_multi k n keys) = of_items (replicate k item_zero ++ item_zero ∷ []) ∷ []
  dissatisfy_token (token_multi_a k n keys) = placed n 0
  dissatisfy_token (token_andor a b c) = both (dissatisfy a) (dissatisfy c)
  dissatisfy_token (token_and_b a b) = both (dissatisfy a) (dissatisfy b)
  dissatisfy_token (token_and_n a b) = dissatisfy a
  dissatisfy_token (token_or_b a b) = both (dissatisfy a) (dissatisfy b)
  dissatisfy_token (token_or_d a b) = both (dissatisfy a) (dissatisfy b)
  dissatisfy_token (token_or_i a b) =
      both (item item_one) (dissatisfy a) ++ both (item item_zero) (dissatisfy b)
  dissatisfy_token (token_thresh k n list) = choose 0 list
  dissatisfy_token (token_a a) = dissatisfy a
  dissatisfy_token (token_s a) = dissatisfy a
  dissatisfy_token (token_n a) = dissatisfy a
  dissatisfy_token (token_c a) = dissatisfy a
  dissatisfy_token (token_d a) = item item_zero
  dissatisfy_token (token_j a) = item item_zero
  dissatisfy_token (token_l a) = item item_one ++ both (item item_zero) (dissatisfy a)
  dissatisfy_token (token_u a) = both (item item_one) (dissatisfy a) ++ item item_zero
  dissatisfy_token _ = []

  -- `k` of the scripts are satisfied, and all others dissatisfied.
  pub choose : ℕ → ScriptList → List Solution
  choose zero script_end = done
  choose (suc k) script_end = []
  choose zero (script_next a rest) = both (dissatisfy a) (choose zero rest)
  choose (suc k) (script_next a rest) =
      both (satisfy a) (choose k rest) ++ both (dissatisfy a) (choose (suc k) rest)

unfoldable pub has_signature : List Item → Bool
has_signature [] = false
has_signature (item_signature ∷ rest) = true
has_signature (_ ∷ rest) = has_signature rest

abbrev pub IsSigned : Solution → Type 0
IsSigned w = has_signature w.items ≡ true

-- The expressions of type K that the parser lets under `c:`.
unfoldable mutual
  pub IsKeyNode : PolicyNode → Type 0
  IsKeyNode (policy_node flags token) = IsKeyToken token

  pub IsKeyToken : Token → Type 0
  IsKeyToken (token_pk_k key) = Unit
  IsKeyToken (token_pk_h key) = Unit
  IsKeyToken (token_andor a b c) = IsKeyNode b × IsKeyNode c
  IsKeyToken (token_and_v a b) = IsKeyNode b
  IsKeyToken (token_or_i a b) = IsKeyNode a × IsKeyNode b
  IsKeyToken _ = ⊥

unfoldable pub list_length : ScriptList → ℕ
list_length script_end = 0
list_length (script_next a rest) = suc (list_length rest)

abbrev pub IsCount : ℕ → ℕ → Type 0
IsCount k n = (0 < k) × (k ≤ n) × (n < 0x7fff)

-- What the parser has checked of the numbers and under `c:`, at every node.
unfoldable mutual
  unfolding IsKeyNode list_length

  pub IsParsed : PolicyNode → Type 0
  IsParsed (policy_node flags token) = IsParsedToken token

  pub IsParsedToken : Token → Type 0
  IsParsedToken (token_multi k n keys) = IsCount k n
  IsParsedToken (token_multi_a k n keys) = IsCount k n
  IsParsedToken (token_andor a b c) = IsParsed a × IsParsed b × IsParsed c
  IsParsedToken (token_and_v a b) = IsParsed a × IsParsed b
  IsParsedToken (token_and_b a b) = IsParsed a × IsParsed b
  IsParsedToken (token_and_n a b) = IsParsed a × IsParsed b
  IsParsedToken (token_or_b a b) = IsParsed a × IsParsed b
  IsParsedToken (token_or_c a b) = IsParsed a × IsParsed b
  IsParsedToken (token_or_d a b) = IsParsed a × IsParsed b
  IsParsedToken (token_or_i a b) = IsParsed a × IsParsed b
  IsParsedToken (token_thresh k n list) = (list_length list ≡ n) × AreParsed list
  IsParsedToken (token_a a) = IsParsed a
  IsParsedToken (token_s a) = IsParsed a
  IsParsedToken (token_n a) = IsParsed a
  IsParsedToken (token_c a) = IsKeyNode a × IsParsed a
  IsParsedToken (token_d a) = IsParsed a
  IsParsedToken (token_t a) = IsParsed a
  IsParsedToken (token_v a) = IsParsed a
  IsParsedToken (token_j a) = IsParsed a
  IsParsedToken (token_l a) = IsParsed a
  IsParsedToken (token_u a) = IsParsed a
  IsParsedToken _ = Unit

  pub AreParsed : ScriptList → Type 0
  AreParsed script_end = Unit
  AreParsed (script_next a rest) = IsParsed a × AreParsed rest
