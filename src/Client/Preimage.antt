-- ===== src/Client/Preimage.antt =====
-- src/handler/lib/get_preimage.c and src/handler/lib/get_merkle_preimage.c: the host is asked for the
-- preimage of a hash, in as many messages as it likes.
pub mod Loop
pub mod Heads
pub mod Sound
pub mod Ends
pub mod Forged
use ledger_babylon_app.Common.{
  ℕ, zero, suc, ◌+◌, ◌-◌, ◌*◌, ◌%◌, ◌^◌, List, [], ◌∷◌, ◌++◌, Bool, ◌||◌, not, if◌then◌else◌, leb,
  ltb, ◌==◌, length, take, drop, bytes_eq,
}
use ledger_babylon_app.Buffer.{Buffer, buffer_create, buffer_get_cur, buffer_write_bytes}
use ledger_babylon_app.Merkle.{Sha256}
use ledger_babylon_app.Client.{
  Dc, M, ok, err, ◌>>=◌, ◌>>◌, return, hang, guard, interrupt, read_u8, read_varint, can_read,
}

-- The memory that a pointer into `G_io_apdu_buffer` shows now.
abbrev pub memory : (Buffer → List ℕ) → M (List ℕ)
memory pointer dc = (ok (pointer dc.read_buffer), dc)

-- The offset of the read buffer.
abbrev pub cursor : M ℕ
cursor dc = (ok dc.read_buffer.offset, dc)

-- The response to CCMD_GET_MORE_ELEMENTS, up to its bytes: their number. `c` is the number of the
-- first of the four errors.
unfoldable pub more_bytes : ℕ → ℕ → M ℕ
more_bytes c bytes_remaining = do
  interrupt (0xa0 ∷ []) c
  n_bytes ← read_u8 (c + 1)
  elements_len ← read_u8 (c + 1)
  can_read (n_bytes * elements_len) (c + 1)
  guard (elements_len == 1) (c + 2)
  guard (leb n_bytes bytes_remaining) (c + 3)
  return n_bytes

module _ (sha : Sha256) where
  -- `while (bytes_remaining > 0)` on fuel. The bytes at the cursor are hashed; those that `data_ptr`
  -- shows are written to the output.
  unfoldable pub preimage_loop :
      ℕ → (Buffer → List ℕ) → ℕ → ℕ → sha.Context → Buffer → M (sha.Context × Buffer)
  preimage_loop c data_ptr zero bytes_remaining hash_context out_buffer = hang
  preimage_loop c data_ptr (suc fuel) zero hash_context out_buffer =
      return (hash_context, out_buffer)
  preimage_loop c data_ptr (suc fuel) (suc rest) hash_context out_buffer = do
    n_bytes ← more_bytes c (suc rest)
    hashed ← memory buffer_get_cur
    written ← memory data_ptr
    preimage_loop c data_ptr fuel (suc rest - n_bytes)
        (sha.update hash_context (take n_bytes hashed))
        (buffer_write_bytes out_buffer (take n_bytes written)).1

  -- The request CCMD_GET_PREIMAGE, and the head of the response: the length and the partial length.
  unfoldable pub preimage_head : List ℕ → M (ℕ × ℕ)
  preimage_head hash = do
    interrupt (0x40 ∷ 0x00 ∷ hash) 1
    preimage_len ← read_varint 2
    partial_data_len ← read_u8 2
    can_read partial_data_len 2
    return (preimage_len, partial_data_len)

  -- The length of the preimage, and the output array. `out` is what the array held.
  unfoldable pub call_get_preimage : List ℕ → List ℕ → M (ℕ × List ℕ)
  call_get_preimage hash out dc =
      (do
        head ← preimage_head hash
        let preimage_len = head.0 % 2 ^ 32
        let partial = head.1
        guard (leb 1 preimage_len) 3
        guard (leb partial preimage_len) 4
        start ← memory buffer_get_cur
        let first = take partial start
        let out_buffer = (buffer_write_bytes (buffer_create out (length out)) first).1
        end ←
            preimage_loop 5 buffer_get_cur (suc (length dc.inbox)) (preimage_len - partial)
              (sha.update sha.init first) out_buffer
        guard (bytes_eq (sha.digest end.0) hash) 9
        return (preimage_len, end.1.ptr))
        dc

  -- The length of the element (the preimage without its first byte), and the output array. In the
  -- loop `data_ptr` is still the pointer to the bytes of the first message.
  unfoldable pub call_get_merkle_preimage : List ℕ → List ℕ → M (ℕ × List ℕ)
  call_get_merkle_preimage hash out dc =
      (do
        head ← preimage_head hash
        let preimage_len = head.0
        let partial = head.1
        guard (not (preimage_len == 0 || partial == 0)) 3
        guard (leb (preimage_len - 1) (length out)) 4
        guard (leb partial preimage_len) 5
        start ← memory buffer_get_cur
        position ← cursor
        let first = take partial start
        let out_buffer =
            (buffer_write_bytes (buffer_create out (length out))
              (take (partial - 1) (drop 1 start))).1
        end ←
            preimage_loop 6 (λ b. drop position b.ptr) (suc (length dc.inbox))
              (preimage_len - partial) (sha.update sha.init first) out_buffer
        guard (bytes_eq (sha.digest end.0) hash) 10
        return (preimage_len - 1, end.1.ptr))
        dc
