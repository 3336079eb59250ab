-- ===== src/Client/LeafHash.antt =====
-- src/handler/lib/get_merkle_leaf_hash.c: the host is asked for a leaf of a Merkle tree with a proof,
-- which is checked against the root that the device knows.
pub mod Climb
pub mod Reach
pub mod Sound
pub mod Ends
use ledger_babylon_app.Common.{
  ℕ, zero, suc, ◌+◌, ◌-◌, ◌*◌, List, [], ◌∷◌, ◌++◌, if◌then◌else◌, leb, ◌==◌, length, take,
  bytes_eq, Option, none, some,
}
use ledger_babylon_app.Buffer.{buffer_get_cur, buffer_seek_cur}
use ledger_babylon_app.Merkle.{
  Sha256, merkle_combine_hashes, Direction, left, right, fail, merkle_get_ith_direction,
}
use ledger_babylon_app.Client.{
  Dc, M, ok, err, ◌>>=◌, ◌>>◌, return, fail_with, hang, guard, interrupt, read_bytes, read_u8,
  can_read, varint_bytes,
}

-- `buffer_seek_cur(&dc->read_buffer, n)`, whose result the code ignores.
abbrev pub skip : ℕ → M (Unit {0})
skip n dc = (ok tt, record dc { read_buffer = (buffer_seek_cur dc.read_buffer n).1 })

-- The 32 bytes at the cursor: `sibling_hash`.
abbrev pub sibling : M (List ℕ)
sibling dc = (ok (take 32 (buffer_get_cur dc.read_buffer)), dc)

-- CCMD_GET_MORE_ELEMENTS: the number of proof elements in the host's next message.
unfoldable pub more_elements : ℕ → ℕ → M ℕ
more_elements proof_size cur_step = do
  interrupt (0xa0 ∷ []) 1
  n_proof_elements ← read_u8 1
  elements_len ← read_u8 1
  can_read (n_proof_elements * elements_len) 1
  guard (elements_len == 32) 1
  guard (leb (cur_step + n_proof_elements) proof_size) 1
  return n_proof_elements

module _ (sha : Sha256) where
  -- The current hash joined with its sibling, on the side that the direction says.
  unfoldable pub join_hashes : Option Direction → List ℕ → List ℕ → M (List ℕ)
  join_hashes (some left) cur_hash sibling_hash =
      return (merkle_combine_hashes sha cur_hash sibling_hash)
  join_hashes (some right) cur_hash sibling_hash =
      return (merkle_combine_hashes sha sibling_hash cur_hash)
  join_hashes (some fail) cur_hash sibling_hash = fail_with 1
  join_hashes none cur_hash sibling_hash = hang

  module _ (tree_size leaf_index proof_size : ℕ) where
    -- `for (; cur_step < end_step; cur_step++)`, with `n` steps to go.
    unfoldable pub steps : ℕ → ℕ → List ℕ → M (List ℕ)
    steps zero cur_step cur_hash = return cur_hash
    steps (suc n) cur_step cur_hash = do
      sibling_hash ← sibling
      next ←
          join_hashes (merkle_get_ith_direction tree_size leaf_index (proof_size - cur_step - 1))
            cur_hash sibling_hash
      skip 32
      steps n (cur_step + 1) next

    -- `while (true)`, each round on the `n` proof elements of one message, on fuel.
    unfoldable pub proof_loop : ℕ → ℕ → ℕ → List ℕ → M (List ℕ)
    proof_loop zero n cur_step cur_hash = hang
    proof_loop (suc fuel) n cur_step cur_hash = do
      hash ← steps n cur_step cur_hash
      let end_step = cur_step + n
      if end_step == proof_size then return hash else do
        n_proof_elements ← more_elements proof_size end_step
        proof_loop fuel n_proof_elements end_step hash

  -- The request, the head of the first message and the bounds on it: the leaf hash claimed, the size
  -- of the proof, and how many elements of it are here.
  unfoldable pub leaf_proof_head : List ℕ → ℕ → ℕ → M (List ℕ × ℕ × ℕ)
  leaf_proof_head merkle_root tree_size leaf_index = do
    interrupt ((0x41 ∷ merkle_root) ++ (varint_bytes tree_size ++ varint_bytes leaf_index)) 1
    cur_hash ← read_bytes 32 1
    proof_size ← read_u8 1
    n_proof_elements ← read_u8 1
    guard (leb n_proof_elements proof_size) 1
    can_read (32 * n_proof_elements) 1
    return (cur_hash, proof_size, n_proof_elements)

  -- `ok` is the result 0 with the leaf hash in `out`. A round takes a message of the host, so there
  -- are fewer rounds than the fuel.
  unfoldable pub call_get_merkle_leaf_hash : List ℕ → ℕ → ℕ → M (List ℕ)
  call_get_merkle_leaf_hash merkle_root tree_size leaf_index dc =
      (do
        head ← leaf_proof_head merkle_root tree_size leaf_index
        hash ← proof_loop tree_size leaf_index head.1 (suc (length dc.inbox)) head.2 0 head.0
        guard (bytes_eq merkle_root hash) 1
        return head.0)
        dc
