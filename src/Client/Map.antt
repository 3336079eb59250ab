-- ===== src/Client/Map.antt =====
-- The calls of src/handler/lib built on leaf hashes and preimages: elements and indices of leaves,
-- values of Merkleized maps, and the check that the keys of a map are sorted.
pub mod Order
pub mod Sorted
pub mod Lookup
mod Tests
use ledger_babylon_app.Common.{
  ℕ, zero, suc, ◌+◌, ◌-◌, ◌*◌, ◌%◌, ◌^◌, List, [], ◌∷◌, ◌++◌, Bool, true, false, ◌||◌, ◌&&◌, not,
  Option, none, some, if◌then◌else◌, leb, ltb, ◌==◌, length, take, replicate, bytes_eq, min,
}
use ledger_babylon_app.Bytes.{read_u32_le}
use ledger_babylon_app.Buffer.{buffer_create, buffer_read_varint, buffer_read_bytes}
use ledger_babylon_app.Merkle.{Sha256, merkle_compute_element_hash}
use ledger_babylon_app.Client.{
  Res, Dc, M, ok, err, stuck, ◌>>=◌, ◌>>◌, return, fail_with, guard, interrupt, read_u8,
  read_varint,
}
use ledger_babylon_app.Client.LeafHash.{call_get_merkle_leaf_hash}
use ledger_babylon_app.Client.Preimage.{call_get_merkle_preimage}

-- `merkleized_map_commitment_t`
pub record MapCommitment : Type 0 where
  pub size : ℕ
  pub keys_root : List ℕ
  pub values_root : List ℕ

recode_res : {A : Type 0} → ℕ → Res A → Res A
recode_res n (ok a) = ok a
recode_res n (err k) = err n
recode_res n stuck = stuck

-- A call whose failure is -`n`, whatever failed in it.
unfoldable pub recode : {A : Type 0} → ℕ → M A → M A
unfolding recode_res
recode n m dc = (recode_res n (m dc).0, (m dc).1)

-- A 64-bit number as the result of a function that returns an `int`: its lower 32 bits, signed.
unfoldable pub return_int : ℕ → M ℕ
return_int v = let i = v % 2 ^ 32 in if ltb i (2 ^ 31) then return i else fail_with (2 ^ 32 - i)

-- The result of `compare_byte_arrays` and of `memcmp`, by its sign.
pub data Sign : Type 0 where
  negative same positive : Sign

unfoldable pub memcmp : ℕ → List ℕ → List ℕ → Sign
memcmp (suc n) (x ∷ xs) (y ∷ ys) =
    let rest = memcmp n xs ys in if ltb x y then negative else if ltb y x then positive else rest
memcmp _ _ _ = same

compare_lengths : ℕ → ℕ → Sign
compare_lengths a b = if ltb a b then negative else if ltb b a then positive else same

by_prefix : Sign → Sign → Sign
by_prefix same lengths = lengths
by_prefix negative lengths = negative
by_prefix positive lengths = positive

unfoldable pub compare_byte_arrays : List ℕ → List ℕ → Sign
unfolding memcmp compare_lengths by_prefix
compare_byte_arrays a b =
    let min_len = if ltb (length a) (length b) then length a else length b in
    let lengths = compare_lengths (length a) (length b) in
    if min_len == 0 then lengths else by_prefix (memcmp min_len a b) lengths

unfoldable pub is_negative : Sign → Bool
is_negative negative = true
is_negative _ = false

-- A callback on the state `S`, the index of an element and its bytes; it may talk to the host.
abbrev pub Callback : Type 0 → Type 0
Callback S = S → ℕ → List ℕ → Dc → S × Dc

-- `none` is NULL.
unfoldable pub run_callback : {S : Type 0} → Option (Callback S) → S → ℕ → List ℕ → M S
run_callback none s index element dc = (ok s, dc)
run_callback (some f) s index element dc = let (s', dc') = f s index element dc in (ok s', dc')

module _ (sha : Sha256) where
  -- The length of the element, and the output array.
  unfoldable pub call_get_merkle_leaf_element : List ℕ → ℕ → ℕ → List ℕ → M (ℕ × List ℕ)
  call_get_merkle_leaf_element merkle_root tree_size leaf_index out = do
    leaf_hash ← call_get_merkle_leaf_hash sha merkle_root tree_size leaf_index
    call_get_merkle_preimage sha leaf_hash out

  unfoldable pub call_get_merkle_leaf_index : ℕ → List ℕ → List ℕ → M ℕ
  call_get_merkle_leaf_index size root leaf_hash = do
    interrupt (0x42 ∷ (root ++ leaf_hash)) 3
    found ← read_u8 1
    index ← read_varint 1
    guard (found == 0 || found == 1) 2
    guard (not (found == 0)) 3
    returned ← recode 4 (call_get_merkle_leaf_hash sha root size (index % 2 ^ 32))
    guard (bytes_eq leaf_hash returned) 5
    return_int index

  unfoldable pub call_get_merkleized_map_value : MapCommitment → List ℕ → List ℕ → M (ℕ × List ℕ)
  call_get_merkleized_map_value map key out = do
    index ← recode 1 (
        call_get_merkle_leaf_index (map.size % 2 ^ 32) map.keys_root
          (merkle_compute_element_hash sha key))
    call_get_merkle_leaf_element map.values_root (map.size % 2 ^ 32) index out

  -- `scratch` is what `result_raw` holds before, four bytes.
  unfoldable pub call_get_merkleized_map_value_u32_le : List ℕ → MapCommitment → List ℕ → M ℕ
  call_get_merkleized_map_value_u32_le scratch map key = do
    res ← recode 1 (call_get_merkleized_map_value map key scratch)
    guard (res.0 == 4) 1
    return (read_u32_le res.1 0)

  unfoldable pub call_get_merkleized_map_value_hash : MapCommitment → List ℕ → M (List ℕ)
  call_get_merkleized_map_value_hash map key = do
    index ← recode 1 (
        call_get_merkle_leaf_index (map.size % 2 ^ 32) map.keys_root
          (merkle_compute_element_hash sha key))
    call_get_merkle_leaf_hash sha map.values_root (map.size % 2 ^ 32) index

  module _ {S : Type 0} (scratch root : List ℕ) (size : ℕ) (callback : Option (Callback S)) where
    -- The loop over the `n` elements from `cur_el_idx` on. `prev_el` is the element before, and
    -- `scratch` what `cur_el` holds before a turn, 290 bytes. Where the check fails, the state that
    -- the callback left is not returned.
    unfoldable pub check_loop : ℕ → ℕ → List ℕ → S → M S
    check_loop zero cur_el_idx prev_el s = return s
    check_loop (suc n) cur_el_idx prev_el s = do
      got ← recode 1 (call_get_merkle_leaf_element root size cur_el_idx scratch)
      let cur_el = take got.0 got.1
      guard (cur_el_idx == 0 || is_negative (compare_byte_arrays prev_el cur_el)) 1
      s' ← run_callback callback s cur_el_idx cur_el
      check_loop n (cur_el_idx + 1) cur_el s'

    unfoldable pub call_check_merkle_tree_sorted_with_callback : S → M S
    call_check_merkle_tree_sorted_with_callback s = check_loop size 0 [] s

  module _ {S : Type 0} (raw scratch : List ℕ) where
    -- `raw` is what `raw_output` holds before, 9 + 2 * 32 bytes. The commitment comes back with the
    -- state of the callback.
    unfoldable pub call_get_merkleized_map_with_callback :
        List ℕ → ℕ → ℕ → Option (MapCommitment → Callback S) → S → M (MapCommitment × S)
    call_get_merkleized_map_with_callback root size index callback s = do
      element ← recode 1 (call_get_merkle_leaf_element root size index raw)
      let first = buffer_read_varint (buffer_create element.1 element.0)
      let keys = buffer_read_bytes first.2 32
      let values = buffer_read_bytes keys.2 32
      guard (first.0 && (keys.0 && values.0)) 1
      let map : MapCommitment = record {
        size = first.1;
        keys_root = keys.1;
        values_root = values.1;
      }
      s' ←
          call_check_merkle_tree_sorted_with_callback scratch keys.1 (first.1 % 2 ^ 32)
            (elim callback [ none ↦ none | some f ↦ some (f map) ]) s
      return (map, s')
