-- ===== src/Client/Map/Tests.antt =====
-- Conversations about a map with two keys.
use ledger_babylon_app.Common.{
  ℕ, ◌≡◌, ◌≤◌, ◌⊎◌, refl, arith, List, [], ◌∷◌, ◌++◌, length, replicate, some, get_elem?, map,
  bytes_eq,
}
use ledger_babylon_app.Buffer.{buffer_create}
use ledger_babylon_app.Merkle.{
  Collision, merkle_compute_element_hash, merkle_combine_hashes, merkle_get_ith_direction,
  direction_loop, ceil_lg, ceil_lg_loop,
}
use ledger_babylon_app.Merkle.Tree.{Tree, leaves, descend, root}
use ledger_babylon_app.Merkle.Tests.{toy_sha, two_leaves, two_leaves-IsMerkle, first_bytes}
use ledger_babylon_app.Client.{
  Dc, Res, ok, interrupt, process_interruption, accept, receive, read_bytes, read_u8, read_varint,
  can_read, varint_bytes,
}
use ledger_babylon_app.Buffer.{
  buffer_can_read, buffer_read_u8, buffer_read_varint, buffer_read_bytes, buffer_write_bytes,
  buffer_seek_cur,
}
use ledger_babylon_app.Varint.{varint_read, varint_write, varint_size}
use ledger_babylon_app.Apdu.{apdu_parser}
use ledger_babylon_app.Client.LeafHash.{
  call_get_merkle_leaf_hash, leaf_proof_head, proof_loop, steps, more_elements, join_hashes,
}
use ledger_babylon_app.Client.Preimage.{
  call_get_merkle_preimage, preimage_head, preimage_loop, more_bytes,
}
use ledger_babylon_app.Client.Map.{
  recode, return_int, memcmp, compare_byte_arrays, is_negative, run_callback,
  call_get_merkle_leaf_element, call_get_merkle_leaf_index, call_get_merkleized_map_value,
  check_loop, call_check_merkle_tree_sorted_with_callback,
}
use ledger_babylon_app.Client.Map.Order.{lex, compare_byte_arrays_lem}
use ledger_babylon_app.Client.Map.Sorted.{collect, Descending, check_sorted}
use ledger_babylon_app.Client.Map.Lookup.{
  leaf_hash_out_of_range, leaf_index_sound, map_value_sound, commitment,
}

-- The dispatcher before the messages with these texts.
abbrev hearing : List (List ℕ) → Dc
hearing texts = record {
  apdu_buffer = replicate 260 0;
  read_buffer = buffer_create [] 0;
  inbox = map (λ t. 0xf8 ∷ 0x01 ∷ 0 ∷ 0 ∷ (length t ∷ t)) texts;
  sent = [];
}

abbrev seven : List ℕ
seven = first_bytes (0 ∷ 7 ∷ [])

abbrev nine : List ℕ
nine = first_bytes (0 ∷ 9 ∷ [])

abbrev top : List ℕ
top = root toy_sha two_leaves

-- No proof at all, for an index out of range.
abbrev rootless : Res (List ℕ) × Dc
rootless = call_get_merkle_leaf_hash toy_sha top 2 5 (hearing ((top ++ (0 ∷ 0 ∷ [])) ∷ []))

rootless_accepted : rootless ≡ (ok top, rootless.1)
unfolding call_get_merkle_leaf_hash leaf_proof_head proof_loop steps interrupt process_interruption
    accept receive merkle_combine_hashes read_bytes read_u8 can_read varint_bytes buffer_can_read
    buffer_read_u8 buffer_read_bytes buffer_seek_cur varint_write varint_size apdu_parser bytes_eq
rootless_accepted = refl

leaf_hash_out_of_range_example : top ≡ top
leaf_hash_out_of_range_example =
    leaf_hash_out_of_range toy_sha top 2 5 (hearing ((top ++ (0 ∷ 0 ∷ [])) ∷ [])) rootless.1 top
      (omega arith) rootless_accepted

-- The index of the key 9, and the proof for it.
abbrev index_texts : List (List ℕ)
index_texts = (1 ∷ 1 ∷ []) ∷ ((nine ++ (1 ∷ 1 ∷ seven)) ∷ [])

abbrev indexed : Res ℕ × Dc
indexed = call_get_merkle_leaf_index toy_sha 2 top nine (hearing index_texts)

index_accepted : indexed ≡ (ok 1, indexed.1)
unfolding call_get_merkle_leaf_index recode return_int call_get_merkle_leaf_hash leaf_proof_head
    proof_loop steps more_elements join_hashes merkle_combine_hashes merkle_get_ith_direction
    direction_loop ceil_lg ceil_lg_loop interrupt process_interruption accept receive read_bytes
    read_u8 read_varint can_read varint_bytes buffer_can_read buffer_read_u8 buffer_read_varint
    buffer_read_bytes buffer_seek_cur varint_read varint_write varint_size apdu_parser bytes_eq
index_accepted = refl

nine_hash : merkle_compute_element_hash toy_sha (9 ∷ []) ≡ nine
unfolding merkle_compute_element_hash
nine_hash = refl

leaf_index_sound_example :
    (get_elem? (leaves two_leaves) 1 ≡ some (merkle_compute_element_hash toy_sha (9 ∷ [])))
    ⊎ ((2 ≤ 1) × (merkle_compute_element_hash toy_sha (9 ∷ []) ≡ top))
    ⊎ Collision toy_sha
unfolding merkle_compute_element_hash
leaf_index_sound_example =
    leaf_index_sound toy_sha two_leaves (9 ∷ []) (hearing index_texts) indexed.1 1
      two_leaves-IsMerkle (omega arith) index_accepted

-- The value of the key 9, in a map that maps 9 to 9.
abbrev value_texts : List (List ℕ)
value_texts =
    (1 ∷ 1 ∷ [])
    ∷ ((nine ++ (1 ∷ 1 ∷ seven)) ∷ ((nine ++ (1 ∷ 1 ∷ seven)) ∷ ((2 ∷ 2 ∷ 0 ∷ 9 ∷ []) ∷ [])))

abbrev valued : Res (ℕ × List ℕ) × Dc
valued =
    call_get_merkleized_map_value toy_sha (commitment toy_sha two_leaves two_leaves) (9 ∷ [])
      (0 ∷ 0 ∷ []) (hearing value_texts)

value_accepted : valued ≡ (ok (1, 9 ∷ 0 ∷ []), valued.1)
unfolding call_get_merkleized_map_value call_get_merkle_leaf_element call_get_merkle_leaf_index
    recode return_int call_get_merkle_leaf_hash leaf_proof_head proof_loop steps more_elements
    join_hashes merkle_compute_element_hash merkle_combine_hashes merkle_get_ith_direction
    direction_loop ceil_lg ceil_lg_loop interrupt process_interruption accept receive read_bytes
    read_u8 read_varint can_read varint_bytes buffer_can_read buffer_read_u8 buffer_read_varint
    buffer_read_bytes buffer_write_bytes buffer_seek_cur varint_read varint_write varint_size
    apdu_parser bytes_eq call_get_merkle_preimage preimage_head preimage_loop more_bytes
value_accepted = refl

map_value_sound_example :
    ((i : ℕ) × (m : List ℕ) × (k : ℕ) × (s : Tree) × (get_elem? (leaves two_leaves) i
        ≡ some (merkle_compute_element_hash toy_sha (9 ∷ [])))
      × (descend two_leaves i k ≡ some s)
      × (root toy_sha s ≡ toy_sha.sha256 m)
      × (length m ≡ 2)
      × (1 ≤ 2))
    ⊎ (merkle_compute_element_hash toy_sha (9 ∷ []) ≡ top)
    ⊎ Collision toy_sha
map_value_sound_example =
    map_value_sound toy_sha two_leaves two_leaves (9 ∷ []) (0 ∷ 0 ∷ []) (9 ∷ 0 ∷ []) 1
      (hearing value_texts) valued.1 two_leaves-IsMerkle two_leaves-IsMerkle (omega arith) refl
      (omega arith) value_accepted

-- Both keys, in order.
abbrev keys_texts : List (List ℕ)
keys_texts =
    (seven ++ (1 ∷ 1 ∷ nine))
    ∷ ((2 ∷ 2 ∷ 0 ∷ 7 ∷ []) ∷ ((nine ++ (1 ∷ 1 ∷ seven)) ∷ ((2 ∷ 2 ∷ 0 ∷ 9 ∷ []) ∷ [])))

abbrev listed : Res (List (List ℕ)) × Dc
listed =
    call_check_merkle_tree_sorted_with_callback toy_sha (replicate 290 0) top 2 (some collect) []
      (hearing keys_texts)

keys_accepted : listed ≡ (ok ((9 ∷ []) ∷ ((7 ∷ []) ∷ [])), listed.1)
unfolding call_check_merkle_tree_sorted_with_callback check_loop run_callback is_negative
    compare_byte_arrays memcmp call_get_merkle_leaf_element recode call_get_merkle_leaf_hash
    leaf_proof_head proof_loop steps more_elements join_hashes merkle_combine_hashes
    merkle_get_ith_direction direction_loop ceil_lg ceil_lg_loop interrupt process_interruption
    accept receive read_bytes read_u8 read_varint can_read varint_bytes buffer_can_read
    buffer_read_u8 buffer_read_varint buffer_read_bytes buffer_write_bytes buffer_seek_cur
    varint_read varint_write varint_size apdu_parser bytes_eq call_get_merkle_preimage preimage_head
    preimage_loop more_bytes
keys_accepted = refl

check_sorted_example : Descending ((9 ∷ []) ∷ ((7 ∷ []) ∷ [])) × (◌≡◌ {A = ℕ} 2 2)
check_sorted_example =
    check_sorted toy_sha (replicate 290 0) top 2 (hearing keys_texts) listed.1
      ((9 ∷ []) ∷ ((7 ∷ []) ∷ [])) keys_accepted

compare_byte_arrays_lem_example :
    compare_byte_arrays (1 ∷ 2 ∷ []) (1 ∷ []) ≡ lex (1 ∷ 2 ∷ []) (1 ∷ [])
compare_byte_arrays_lem_example = compare_byte_arrays_lem (1 ∷ 2 ∷ []) (1 ∷ [])
