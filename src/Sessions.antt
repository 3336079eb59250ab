-- ===== src/Sessions.antt =====
-- src/musig/musig_sessions.c: the MuSig2 sessions that the device keeps between the two rounds of a
-- signature. The slots of the persistent storage are a list of eight sessions; a byte array of 32
-- bytes is a list. Random bytes of the device are an argument.
pub mod Slots
pub mod Once
pub mod Nonces
mod Tests
use ledger_babylon_app.Common.{
  ℕ, zero, suc, ◌/◌, ◌%◌, ◌^◌, List, [], ◌∷◌, ◌++◌, Bool, true, false, ◌&&◌, not, Option, none,
  some, if◌then◌else◌, leb, ◌==◌, length, set, replicate, bytes_eq, bit_or,
}
use ledger_babylon_app.Bytes.{write_u32_be}
use ledger_babylon_app.Merkle.{Sha256}

-- `musig_psbt_session_t`
pub record Session : Type 0 where
  pub id : List ℕ
  pub rand_root : List ℕ

-- `musig_signing_state_t`
pub record SigningState : Type 0 where
  pub round1 : Session
  pub round2 : Session

abbrev pub max_n_musig_sessions : ℕ
max_n_musig_sessions = 8

abbrev pub zero_id : List ℕ
zero_id = replicate 32 0

abbrev pub zero_session : Session
zero_session = record { id = zero_id; rand_root = replicate 32 0 }

unfoldable pub is_all_zeros : List ℕ → Bool
is_all_zeros [] = true
is_all_zeros (x ∷ xs) = x == 0 && is_all_zeros xs

-- The bytes of the struct.
abbrev pub session_bytes : Session → List ℕ
session_bytes s = s.id ++ s.rand_root

-- The first session with the id, and the storage with that slot zeroed; `none` is `false`.
unfoldable pub musigsession_pop : List ℕ → List Session → Option Session × List Session
musigsession_pop id [] = (none, [])
musigsession_pop id (s ∷ rest) =
    let (found, rest') = musigsession_pop id rest in
    if bytes_eq id s.id then (some s, zero_session ∷ rest) else (found, s ∷ rest')

-- The first slot that is all zeros, or the number of slots.
unfoldable pub free_slot : List Session → ℕ
unfolding is_all_zeros
free_slot [] = 0
free_slot (s ∷ rest) =
    let next = free_slot rest in if is_all_zeros (session_bytes s) then 0 else suc next

unfoldable pub musigsession_store : List ℕ → Session → List Session → List Session
unfolding musigsession_pop free_slot
musigsession_store id session storage =
    let storage' = (musigsession_pop id storage).1 in
    let i = free_slot storage' in set storage' (if leb max_n_musig_sessions i then 0 else i) session

-- `musigsession_initialize_signing_state`
abbrev pub initial_signing_state : SigningState
initial_signing_state = record { round1 = zero_session; round2 = zero_session }

-- The session returned is the field `round1` of the state. `random` is what
-- `musigsession_init_randomness` gets from the device.
unfoldable pub musigsession_round1_initialize :
    List ℕ → List ℕ → SigningState → List Session → SigningState × List Session
unfolding musigsession_pop
musigsession_round1_initialize random id state storage =
    let storage' = (musigsession_pop id storage).1 in
    if bytes_eq state.round1.id id
    then (state, storage')
    else (record state { round1 = record { id = id; rand_root = random } }, storage')

-- `none` is NULL.
unfoldable pub musigsession_round2_initialize :
    List ℕ → SigningState → List Session → Option Session × SigningState × List Session
unfolding musigsession_pop
musigsession_round2_initialize id state storage =
    if bytes_eq state.round2.id id
    then (some state.round2, state, storage)
    else let (found, storage') = musigsession_pop id storage in
      elim found [
        | none ↦ (none, state, storage')
        | some s ↦ (some s, record state { round2 = s }, storage')
      ]

-- `acc |= byte` over all bytes of the struct.
unfoldable pub or_bytes : ℕ → List ℕ → ℕ
or_bytes acc [] = acc
or_bytes acc (b ∷ bs) = or_bytes (bit_or acc b) bs

unfoldable pub musigsession_commit : SigningState → List Session → List Session
unfolding or_bytes musigsession_store
musigsession_commit state storage =
    if not (or_bytes 0 (session_bytes state.round1) == 0)
    then musigsession_store state.round1.id state.round1 storage
    else storage

-- `crypto_hash_update_u32`: four bytes, big endian.
abbrev pub u32_bytes : ℕ → List ℕ
u32_bytes v = write_u32_be (replicate 4 0) 0 v

-- The hash for input `i` and placeholder `j`, as 32-bit integers.
unfoldable pub compute_rand_i_j : Sha256 → Session → ℕ → ℕ → List ℕ
compute_rand_i_j sha session i j = sha.digest (
    sha.update (sha.update (sha.update sha.init session.rand_root) (u32_bytes (i % 2 ^ 32)))
      (u32_bytes (j % 2 ^ 32)))
