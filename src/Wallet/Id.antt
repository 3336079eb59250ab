-- ===== src/Wallet/Id.antt =====
-- `get_policy_wallet_id` of src/common/wallet.c: the hash that stands for a wallet policy.
use ledger_babylon_app.Common.{ℕ, List, [], ◌∷◌, if◌then◌else◌, ◌==◌, take}
use mathlib.Core.List.{foldl}
use ledger_babylon_app.Merkle.{Sha256}
use ledger_babylon_app.Client.{varint_bytes}
use ledger_babylon_app.Wallet.{WalletHeader}

-- What is fed to the hash, in its order. The template is hashed itself in version 1, by its hash in
-- version 2.
unfoldable pub wallet_id_chunks : WalletHeader → List (List ℕ)
unfolding varint_bytes
wallet_id_chunks h =
    (h.version ∷ [])
    ∷ (h.name_len ∷ [])
    ∷ take h.name_len h.name
    ∷ varint_bytes h.descriptor_template_len
    ∷ take (if h.version == 1 then h.descriptor_template_len else 32) h.descriptor_template
    ∷ varint_bytes h.n_keys
    ∷ take 32 h.keys_info_merkle_root
    ∷ []

unfoldable pub get_policy_wallet_id : Sha256 → WalletHeader → List ℕ
unfolding wallet_id_chunks
get_policy_wallet_id sha h = sha.digest (foldl sha.update sha.init (wallet_id_chunks h))
