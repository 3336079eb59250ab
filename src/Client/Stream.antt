-- ===== src/Client/Stream.antt =====
-- src/handler/lib/stream_preimage.c and the calls on it, stream_merkle_leaf_element.c and
-- stream_merkleized_map_value.c: a preimage is handed to a callback in pieces, as the host sends it.
mod Sound
mod Ends
mod Tests
use ledger_babylon_app.Common.{
  ℕ, zero, suc, ◌-◌, ◌%◌, ◌^◌, List, [], ◌∷◌, ◌++◌, Option, none, some, leb, length, take, drop,
  sub_size, bytes_eq,
}
use ledger_babylon_app.Buffer.{Buffer, buffer_create, buffer_get_cur}
use ledger_babylon_app.Merkle.{Sha256, merkle_compute_element_hash}
use ledger_babylon_app.Client.{M, ◌>>=◌, ◌>>◌, return, hang, guard}
use ledger_babylon_app.Client.LeafHash.{call_get_merkle_leaf_hash}
use ledger_babylon_app.Client.Preimage.{memory, more_bytes, preimage_head}
use ledger_babylon_app.Client.Map.{MapCommitment, recode, call_get_merkle_leaf_index}

-- `len_callback`, which may be NULL, on the length and the caller's state.
unfoldable pub announce : {S : Type 0} → Option (ℕ → S → S) → ℕ → S → S
announce none len s = s
announce (some f) len s = f len s

module _ (sha : Sha256) {S : Type 0} (callback : Buffer → S → S) where
  -- `while (bytes_remaining > 0)` on fuel.
  unfoldable pub stream_loop : ℕ → ℕ → sha.Context → S → M (sha.Context × S)
  stream_loop zero bytes_remaining hash_context s = hang
  stream_loop (suc fuel) zero hash_context s = return (hash_context, s)
  stream_loop (suc fuel) (suc rest) hash_context s = do
    n_bytes ← more_bytes 5 (suc rest)
    data_ptr ← memory buffer_get_cur
    stream_loop fuel (suc rest - n_bytes) (sha.update hash_context (take n_bytes data_ptr))
        (callback (buffer_create data_ptr n_bytes) s)

  -- The length without the first byte, and the caller's state. The first buffer skips that byte: its
  -- size is a `size_t`, which wraps if the first message holds no byte.
  unfoldable pub call_stream_preimage : List ℕ → Option (ℕ → S → S) → S → M (ℕ × S)
  call_stream_preimage hash len_callback s dc =
      (do
        head ← preimage_head sha hash
        let preimage_len = head.0 % 2 ^ 32
        let partial = head.1
        guard (leb 1 preimage_len) 3
        guard (leb partial preimage_len) 4
        data_ptr ← memory buffer_get_cur
        let first = buffer_create (drop 1 data_ptr) (sub_size partial 1)
        end ←
            stream_loop (suc (length dc.inbox)) (preimage_len - partial)
              (sha.update sha.init (take partial data_ptr))
              (callback first (announce len_callback (preimage_len - 1) s))
        guard (bytes_eq (sha.digest end.0) hash) 9
        return (preimage_len - 1, end.1))
        dc

  unfoldable pub call_stream_merkle_leaf_element :
      List ℕ → ℕ → ℕ → Option (ℕ → S → S) → S → M (ℕ × S)
  call_stream_merkle_leaf_element merkle_root tree_size leaf_index len_callback s = do
    leaf_hash ← recode 1 (call_get_merkle_leaf_hash sha merkle_root tree_size leaf_index)
    call_stream_preimage leaf_hash len_callback s

  unfoldable pub call_stream_merkleized_map_value :
      MapCommitment → List ℕ → Option (ℕ → S → S) → S → M (ℕ × S)
  call_stream_merkleized_map_value map key len_callback s = do
    index ← recode 1 (
        call_get_merkle_leaf_index sha (map.size % 2 ^ 32) map.keys_root
          (merkle_compute_element_hash sha key))
    call_stream_merkle_leaf_element map.values_root (map.size % 2 ^ 32) index len_callback s
