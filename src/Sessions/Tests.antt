-- ===== src/Sessions/Tests.antt =====
-- A storage with one session in it.
use ledger_babylon_app.Common.{
  ℕ, ◌≡◌, ◌≢◌, ◌⊎◌, ap, refl, arith, List, ◌∷◌, none, some, replicate, false, bytes_eq,
  bytes_eq_complete, get_or,
}
use ledger_babylon_app.Merkle.{Collision}
use ledger_babylon_app.Merkle.Tests.{toy_sha}
use ledger_babylon_app.Sessions.{
  Session, zero_id, zero_session, initial_signing_state, musigsession_round1_initialize,
  musigsession_round2_initialize, musigsession_commit,
}
use ledger_babylon_app.Sessions.Slots.{IsStorage}
use ledger_babylon_app.Sessions.Once.{operations-IsStorage, session_once}
use ledger_babylon_app.Sessions.Nonces.{rand_i_j-injective}

abbrev ones : List ℕ
ones = replicate 32 1

abbrev twos : List ℕ
twos = replicate 32 2

abbrev old : Session
old = record { id = twos; rand_root = ones }

abbrev storage : List Session
storage = old ∷ replicate 7 zero_session

storage-IsStorage : IsStorage storage
storage-IsStorage = record {
  slots = refl;
  unique = λ id h.
      let free : bytes_eq id zero_id ≡ false = bytes_eq_complete id zero_id h in ground arith;
}

ones-nonzero : ones ≢ zero_id
ones-nonzero e =
    let q : get_or ones 0 0 ≡ get_or zero_id 0 0 = ap (λ xs. get_or xs 0 0) e in omega arith

operations-IsStorage_example :
    IsStorage (musigsession_round1_initialize twos ones initial_signing_state storage).1
    × IsStorage (musigsession_round2_initialize ones initial_signing_state storage).2
    × IsStorage (musigsession_commit initial_signing_state storage)
operations-IsStorage_example =
    operations-IsStorage twos ones initial_signing_state storage storage-IsStorage

session_once_example :
    let (state, st1) = musigsession_round1_initialize twos ones initial_signing_state storage in
    let session : Session = record { id = ones; rand_root = twos } in
    ((musigsession_round2_initialize ones initial_signing_state st1).0 ≡ none)
    × ((st3 : List Session) × (musigsession_round2_initialize ones initial_signing_state
            (musigsession_commit state st1)
          ≡ (some session, record initial_signing_state { round2 = session }, st3))
        × ((musigsession_round2_initialize ones initial_signing_state st3).0 ≡ none))
session_once_example = session_once twos ones storage storage-IsStorage refl ones-nonzero

rand_i_j-injective_example : (◌≡◌ {A = ℕ} 3 3 × ◌≡◌ {A = ℕ} 5 5) ⊎ Collision toy_sha
rand_i_j-injective_example =
    rand_i_j-injective toy_sha old 3 5 3 5 (omega arith) (omega arith) (omega arith) (omega arith)
      refl
