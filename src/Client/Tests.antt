-- ===== src/Client/Tests.antt =====
-- Conversations of the device with a host.
use ledger_babylon_app.Common.{
  ℕ, ◌+◌, ◌^◌, ◌≡◌, ◌≤◌, ◌⊎◌, refl, arith, List, [], ◌∷◌, ◌++◌, length, take, drop, replicate, some,
  get_elem?, bytes_eq,
}
use ledger_babylon_app.Buffer.{buffer_create}
use ledger_babylon_app.Merkle.{
  Collision, merkle_compute_element_hash, merkle_combine_hashes, merkle_get_ith_direction,
  direction_loop, ceil_lg, ceil_lg_loop,
}
use ledger_babylon_app.Merkle.Tree.{Tree, leaves, descend, root}
use ledger_babylon_app.Merkle.Tests.{toy_sha, two_leaves, two_leaves-IsMerkle, first_bytes}
use ledger_babylon_app.Client.{
  Dc, Res, ok, interrupt, process_interruption, accept, receive, read_bytes, read_u8, read_varint,
  can_read, varint_bytes,
}
use ledger_babylon_app.Buffer.{
  buffer_can_read, buffer_read_u8, buffer_read_varint, buffer_read_bytes, buffer_write_bytes,
  buffer_seek_cur,
}
use ledger_babylon_app.Varint.{varint_read, varint_write, varint_size}
use ledger_babylon_app.Apdu.{apdu_parser}
use ledger_babylon_app.Client.LeafHash.{
  call_get_merkle_leaf_hash, leaf_proof_head, proof_loop, steps, more_elements, join_hashes,
}
use ledger_babylon_app.Client.LeafHash.Sound.{leaf_hash_sound, leaf_element_sound}
use ledger_babylon_app.Client.Preimage.{
  call_get_preimage, call_get_merkle_preimage, preimage_head, preimage_loop, more_bytes,
}
use ledger_babylon_app.Client.Preimage.Sound.{get_preimage_sound, get_merkle_preimage_sound}
use ledger_babylon_app.Client.Spends.{EndsWithin}
use ledger_babylon_app.Client.Preimage.Ends.{get_preimage_ends, get_merkle_preimage_ends}
use ledger_babylon_app.Client.LeafHash.Ends.{leaf_hash_ends, announced_size}
use ledger_babylon_app.Client.Preimage.Forged.{forged_element, facing}

-- The dispatcher with one message of the host to come.
abbrev before : List ℕ → Dc
before text = record {
  apdu_buffer = replicate 260 0;
  read_buffer = buffer_create [] 0;
  inbox = (0xf8 ∷ 0x01 ∷ 0 ∷ 0 ∷ (length text ∷ text)) ∷ [];
  sent = [];
}

-- The second leaf of the tree, and a proof of one element: the first leaf.
abbrev proof : Dc
proof = before (first_bytes (0 ∷ 9 ∷ []) ++ (1 ∷ 1 ∷ first_bytes (0 ∷ 7 ∷ [])))

abbrev proved : Res (List ℕ) × Dc
proved = call_get_merkle_leaf_hash toy_sha (root toy_sha two_leaves) 2 1 proof

proof_accepted : proved ≡ (ok (merkle_compute_element_hash toy_sha (9 ∷ [])), proved.1)
unfolding call_get_merkle_leaf_hash leaf_proof_head proof_loop steps more_elements join_hashes
    merkle_compute_element_hash merkle_combine_hashes merkle_get_ith_direction direction_loop
    ceil_lg ceil_lg_loop interrupt process_interruption accept receive read_bytes read_u8 can_read
    varint_bytes buffer_can_read bytes_eq buffer_read_u8 buffer_read_bytes buffer_seek_cur
    varint_write varint_size apdu_parser
proof_accepted = refl

leaf_hash_sound_example :
    ((k : ℕ) × (s : Tree) × (descend two_leaves 1 k ≡ some s)
      × (root toy_sha s ≡ merkle_compute_element_hash toy_sha (9 ∷ [])))
    ⊎ Collision toy_sha
leaf_hash_sound_example =
    leaf_hash_sound toy_sha two_leaves 1 proof proved.1
      (merkle_compute_element_hash toy_sha (9 ∷ [])) two_leaves-IsMerkle (omega arith) (omega arith)
      proof_accepted

leaf_element_sound_example :
    (get_elem? (leaves two_leaves) 1 ≡ some (merkle_compute_element_hash toy_sha (9 ∷ [])))
    ⊎ Collision toy_sha
leaf_element_sound_example =
    leaf_element_sound toy_sha two_leaves 1 proof proved.1 (9 ∷ []) two_leaves-IsMerkle
      (omega arith) (omega arith) proof_accepted

-- A preimage of three bytes in one message.
abbrev preimage : List ℕ
preimage = 0 ∷ 5 ∷ 6 ∷ []

abbrev answer : Dc
answer = before (3 ∷ 3 ∷ preimage)

abbrev output : List ℕ
output = replicate 4 0

abbrev got : Res (ℕ × List ℕ) × Dc
got = call_get_preimage toy_sha (first_bytes preimage) output answer

preimage_accepted : got ≡ (ok (3, 0 ∷ 5 ∷ 6 ∷ 0 ∷ []), got.1)
unfolding call_get_preimage preimage_head preimage_loop more_bytes interrupt process_interruption
    accept receive read_u8 read_varint can_read buffer_can_read buffer_read_u8 buffer_read_varint
    buffer_write_bytes varint_read apdu_parser bytes_eq
preimage_accepted = refl

get_preimage_sound_example :
    (m : List ℕ) × (toy_sha.sha256 m ≡ first_bytes preimage)
    × (length m ≡ 3)
    × (3 ≤ 4 → take 3 (0 ∷ 5 ∷ 6 ∷ 0 ∷ []) ≡ m)
get_preimage_sound_example =
    get_preimage_sound toy_sha (first_bytes preimage) output (0 ∷ 5 ∷ 6 ∷ 0 ∷ []) 3 answer got.1
      (omega arith) preimage_accepted

abbrev got_element : Res (ℕ × List ℕ) × Dc
got_element = call_get_merkle_preimage toy_sha (first_bytes preimage) output answer

element_accepted : got_element ≡ (ok (2, 5 ∷ 6 ∷ 0 ∷ 0 ∷ []), got_element.1)
unfolding call_get_merkle_preimage preimage_head preimage_loop more_bytes interrupt
    process_interruption accept receive read_u8 read_varint can_read buffer_can_read buffer_read_u8
    buffer_read_varint buffer_write_bytes varint_read apdu_parser bytes_eq
element_accepted = refl

get_merkle_preimage_sound_example :
    (m : List ℕ) × (toy_sha.sha256 m ≡ first_bytes preimage)
    × (length m ≡ 3)
    × (2 ≤ 4)
    × ((preimage_head toy_sha (first_bytes preimage) answer).1.read_buffer.offset ≡ 2
        → take 2 (5 ∷ 6 ∷ 0 ∷ 0 ∷ []) ≡ drop 1 m)
get_merkle_preimage_sound_example =
    get_merkle_preimage_sound toy_sha (first_bytes preimage) output (5 ∷ 6 ∷ 0 ∷ 0 ∷ []) 2 answer
      got_element.1 (omega arith) element_accepted

forged_element_example :
    (call_get_merkle_preimage toy_sha
      (first_bytes (0 ∷ 42 ∷ []))
      (0 ∷ [])
      (facing [] (buffer_create [] 0) [] 42 66)).0
    ≡ ok (1, 66 ∷ [])
forged_element_example = forged_element toy_sha [] (buffer_create [] 0) [] 42 66

-- The preimage in two messages.
abbrev in_two : Dc
in_two =
    let first = before (3 ∷ 2 ∷ 0 ∷ 5 ∷ []) in
    record first { inbox = first.inbox ++ (before (1 ∷ 1 ∷ 6 ∷ [])).inbox }

get_preimage_ends_example :
    EndsWithin (2 ^ 32) 2 (call_get_preimage toy_sha (first_bytes preimage) output in_two)
get_preimage_ends_example =
    get_preimage_ends toy_sha (first_bytes preimage) output in_two (omega arith, tt)

get_merkle_preimage_ends_example :
    EndsWithin 5 2 (call_get_merkle_preimage toy_sha (first_bytes preimage) output in_two)
get_merkle_preimage_ends_example =
    get_merkle_preimage_ends toy_sha (first_bytes preimage) output in_two (omega arith, tt)

-- The proof in two messages, the first one with no element.
abbrev proof_in_two : Dc
proof_in_two =
    let first = before (first_bytes (0 ∷ 9 ∷ []) ++ (1 ∷ 0 ∷ [])) in
    record first { inbox = first.inbox ++ (before (1 ∷ 32 ∷ first_bytes (0 ∷ 7 ∷ []))).inbox }

leaf_hash_ends_example :
    EndsWithin
      (announced_size proof_in_two.inbox + 1)
      2
      (call_get_merkle_leaf_hash toy_sha (root toy_sha two_leaves) 2 1 proof_in_two)
leaf_hash_ends_example =
    leaf_hash_ends toy_sha two_leaves 1 (root toy_sha two_leaves) proof_in_two two_leaves-IsMerkle
      (omega arith) (omega arith) (omega arith, tt)
