-- ===== src/Sessions/Once.antt =====
-- A session is used once: what commit stores, the next round 2 takes out, and no other one finds it.
use ledger_babylon_app.Common.{
  ℕ, ◌<◌, ◌≡◌, ◌≢◌, inl, inr, refl, sym, ap, ◌∙◌, arith, List, [], ◌∷◌, ◌++◌, false, some, none,
  if◌then◌else◌, leb, ◌==◌, length, set, replicate, bytes_eq, bytes_eq_complete, bit_or,
  Option-cases, ap₂, ne→==,
}
use ledger_babylon_app.Common.Bits.{bit_or-ge}
use ledger_babylon_app.Sessions.{
  Session, SigningState, zero_id, zero_session, initial_signing_state, max_n_musig_sessions,
  musigsession_pop, free_slot, musigsession_store, musigsession_round1_initialize,
  musigsession_round2_initialize, musigsession_commit, or_bytes,
}
use ledger_babylon_app.Sessions.Slots.{
  holders, IsStorage, holders-pop, pop-none, pop-set, pop-IsStorage, store-IsStorage, length-pop,
  holders-set,
}

-- Every operation keeps eight slots with no id in two of them.
pub operations-IsStorage :
    (random id : List ℕ) (state : SigningState) (st : List Session)
    → IsStorage st
    → IsStorage (musigsession_round1_initialize random id state st).1
      × IsStorage (musigsession_round2_initialize id state st).2
      × IsStorage (musigsession_commit state st)
unfolding musigsession_round1_initialize musigsession_round2_initialize musigsession_commit
operations-IsStorage random id state st v = (
  ground (arith, pop-IsStorage id st v),
  elim (Option-cases (musigsession_pop id st).0) [
    | inl e ↦ ground (arith, pop-IsStorage id st v)
    | inr (s, e) ↦ ground (arith, pop-IsStorage id st v)
  ],
  ground (arith, store-IsStorage state.round1 st v),
)

stored-found :
    (s : Session) (st : List Session)
    → IsStorage st
    → s.id ≢ zero_id
    → (st' : List Session) × (musigsession_pop s.id (musigsession_store s.id s st) ≡ (some s, st'))
      × ((musigsession_pop s.id st').0 ≡ none)
unfolding musigsession_store
stored-found s st v h =
    let popped = (musigsession_pop s.id st).1 in
    let i = free_slot popped in
    let slot = if leb max_n_musig_sessions i then 0 else i in
    let gone : holders s.id popped ≡ 0 = omega (arith, holders-pop s.id st h, v.unique s.id h) in
    let zeroed : bytes_eq s.id zero_id ≡ false = bytes_eq_complete s.id zero_id h in
    let left : holders s.id (set popped slot zero_session) ≡ 0 =
      ground (arith, holders-set s.id popped slot zero_session) in
    let room : slot < length popped = ground (arith, length-pop s.id st, v.slots) in
    (
      set popped slot zero_session,
      pop-set popped slot s gone room,
      ap (λ p. p.0) (pop-none s.id (set popped slot zero_session) left),
    )

or_bytes-acc : (acc : ℕ) (xs : List ℕ) → or_bytes acc xs ≡ 0 → acc ≡ 0
unfolding or_bytes
or_bytes-acc acc [] h = h
or_bytes-acc acc (x ∷ xs) h = omega (arith, or_bytes-acc (bit_or acc x) xs h, bit_or-ge acc x)

-- The disjunction of all bytes is 0 only if they are.
or_bytes-zero :
    (acc : ℕ) (xs ys : List ℕ)
    → or_bytes acc (xs ++ ys) ≡ 0
    → (acc ≡ 0) × (xs ≡ replicate (length xs) 0)
unfolding or_bytes
or_bytes-zero acc [] ys h = (or_bytes-acc acc ys h, refl)
or_bytes-zero acc (x ∷ xs) ys h =
    let (first, rest) = or_bytes-zero (bit_or acc x) xs ys h in
    let zero_x : x ≡ 0 = omega (arith, bit_or-ge acc x) in
    (omega (arith, bit_or-ge acc x), ap₂ (λ a b. a ∷ b) zero_x rest)

module _ (id : List ℕ) (h : id ≢ zero_id) where
  zeroed : bytes_eq zero_id id ≡ false
  zeroed = bytes_eq_complete zero_id id (λ q. h (sym q))

  round1_fresh :
      (random : List ℕ) (st : List Session)
      → musigsession_round1_initialize random id initial_signing_state st ≡ (
        record initial_signing_state { round1 = record { id = id; rand_root = random } },
        (musigsession_pop id st).1,
      )
  unfolding musigsession_round1_initialize
  round1_fresh random st = rw zeroed refl

  round2_found :
      (st : List Session) {s : Session} {st' : List Session}
      → musigsession_pop id st ≡ (some s, st')
      → musigsession_round2_initialize id initial_signing_state st
        ≡ (some s, record initial_signing_state { round2 = s }, st')
  unfolding musigsession_round2_initialize
  round2_found st {s} e =
      let found = ap (λ p. p.0) e in
      rw (zeroed, found)
        (ap (λ t. (some s, record initial_signing_state { round2 = s }, t)) (ap (λ p. p.1) e))

  round2_missing :
      (st : List Session)
      → (musigsession_pop id st).0 ≡ none
      → (musigsession_round2_initialize id initial_signing_state st).0 ≡ none
  unfolding musigsession_round2_initialize
  round2_missing st e = rw (zeroed, e) refl

  commit_stores :
      (random : List ℕ) (st : List Session)
      → length id ≡ 32
      → musigsession_commit
          (record initial_signing_state { round1 = record { id = id; rand_root = random } })
          st
        ≡ musigsession_store id (record { id = id; rand_root = random }) st
  unfolding musigsession_commit
  commit_stores random st len =
      let nonzero : (or_bytes 0 (id ++ random) == 0) ≡ false =
        ne→== _ _ (λ q. h ((or_bytes-zero 0 id random q).1 ∙ ap (λ n. replicate n 0) len)) in
      rw nonzero refl

-- A session of round 1 with a nonzero id of 32 bytes: before the commit round 2 finds no session with
-- the id; after it, round 2 of a fresh signing state gets exactly this session; and after that, round
-- 2 of another fresh signing state gets none.
pub session_once :
    (random id : List ℕ) (st : List Session)
    → IsStorage st
    → length id ≡ 32
    → id ≢ zero_id
    → let (state, st1) = musigsession_round1_initialize random id initial_signing_state st in
      let session : Session = record { id = id; rand_root = random } in
      ((musigsession_round2_initialize id initial_signing_state st1).0 ≡ none)
      × ((st3 : List Session) × (musigsession_round2_initialize id initial_signing_state
              (musigsession_commit state st1)
            ≡ (some session, record initial_signing_state { round2 = session }, st3))
          × ((musigsession_round2_initialize id initial_signing_state st3).0 ≡ none))
session_once random id st v len h =
    let session : Session = record { id = id; rand_root = random } in
    let popped = (musigsession_pop id st).1 in
    let gone : (musigsession_pop id popped).0 ≡ none =
      ap (λ p. p.0) (pop-none id popped (omega (arith, holders-pop id st h, v.unique id h))) in
    let (st3, found, lost) = stored-found session popped (pop-IsStorage id st v) h in
    rw (round1_fresh id h random st, commit_stores id h random popped len)
      (
        round2_missing id h popped gone,
        (st3, round2_found id h _ found, round2_missing id h st3 lost),
      )
