-- ===== src/Policy.antt =====
-- Wallet policies: the syntax tree of src/common/wallet.h and what src/common/wallet.c and
-- src/handler/lib/policy.c compute on it. A relative pointer is the node that it points to.
pub mod Costs
pub mod Leaves
pub mod Joints
pub mod Wrappers
pub mod ExtInfo
pub mod Solutions
pub mod Rules
pub mod Holds
pub mod Analysis
pub mod Alls
pub mod Bounds
pub mod Parts
pub mod Tables
pub mod Stack
pub mod Signing
pub mod Signatures
pub mod Locked
pub mod Choices
pub mod Timelocks
pub mod Sane
mod Tests
use ledger_babylon_app.Common.{ℕ, Bool, List}

-- A key placeholder: the index of a key, or those of the keys of a `musig()`.
pub data KeyRef : Type 0 where
  key_expression_normal : ℕ → KeyRef
  key_expression_musig : List ℕ → KeyRef

pub record Keyexpr : Type 0 where
  pub num_first : ℕ
  pub num_second : ℕ
  pub placeholder : KeyRef
  pub keyexpr_index : ℕ

pub data MiniscriptType : Type 0 where
  miniscript_type_b miniscript_type_v miniscript_type_k miniscript_type_w : MiniscriptType

pub record Flags : Type 0 where
  pub is_miniscript : Bool
  pub miniscript_type : MiniscriptType
  pub miniscript_mod_z : Bool
  pub miniscript_mod_o : Bool
  pub miniscript_mod_n : Bool
  pub miniscript_mod_d : Bool
  pub miniscript_mod_u : Bool

-- A node is its flags and its token, with what the token holds. `token_multi k n keys` and its like
-- hold the threshold, the number of keys and the keys; `token_thresh k n list` alike.
mutual
  pub data PolicyNode : Type 0 where
    policy_node : Flags → Token → PolicyNode

  pub data Token : Type 0 where
    token_sh token_wsh : PolicyNode → Token
    token_pk token_pkh token_wpkh : Keyexpr → Token
    token_multi token_multi_a token_sortedmulti token_sortedmulti_a : ℕ → ℕ → List Keyexpr → Token
    token_tr : Keyexpr → Token
    token_tr_tree : Keyexpr → TapTree → Token
    token_0 token_1 : Token
    token_pk_k token_pk_h : Keyexpr → Token
    token_older token_after : ℕ → Token
    token_sha256 token_hash256 token_ripemd160 token_hash160 : List ℕ → Token
    token_andor : PolicyNode → PolicyNode → PolicyNode → Token
    token_and_v token_and_b token_and_n : PolicyNode → PolicyNode → Token
    token_or_b token_or_c token_or_d token_or_i : PolicyNode → PolicyNode → Token
    token_thresh : ℕ → ℕ → ScriptList → Token
    token_a token_s token_c token_t token_d token_v token_j token_n token_l token_u :
        PolicyNode → Token

  pub data ScriptList : Type 0 where
    script_end : ScriptList
    script_next : PolicyNode → ScriptList → ScriptList

  pub data TapTree : Type 0 where
    tree_leaf : PolicyNode → TapTree
    tree_branch : TapTree → TapTree → TapTree

pub data MiniscriptContext : Type 0 where
  miniscript_context_p2wsh miniscript_context_tapscript : MiniscriptContext
