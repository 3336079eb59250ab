-- ===== src/Sessions/Slots.antt =====
-- How many slots hold a session with a given id, and what pop and store do to that number.
use ledger_babylon_app.Common.{
  ℕ, zero, suc, ◌+◌, ◌-◌, ◌≤◌, ◌<◌, ◌≡◌, ◌≢◌, inl, inr, refl, sym, ap, subst, ◌∙◌, arith, List, [],
  ◌∷◌, true, false, none, some, if◌then◌else◌, leb, length, set, bytes_eq, bytes_eq_sound,
  bytes_eq_complete, bytes_eq_refl, Bool-cases, length-set,
}
use ledger_babylon_app.Sessions.{
  Session, zero_id, zero_session, musigsession_pop, free_slot, musigsession_store,
  max_n_musig_sessions,
}

abbrev pub holders : List ℕ → List Session → ℕ
holders id [] = 0
holders id (s ∷ rest) = (if bytes_eq id s.id then 1 else 0) + holders id rest

-- The storage has its eight slots, and no two of them are taken by one id.
pub record IsStorage (storage : List Session) : Type 0 where
  pub slots : length storage ≡ max_n_musig_sessions
  pub unique : (id : List ℕ) → id ≢ zero_id → holders id storage ≤ 1

pub length-pop : (id : List ℕ) (st : List Session) → length (musigsession_pop id st).1 ≡ length st
unfolding musigsession_pop
length-pop id [] = refl
length-pop id (s ∷ rest) = ground (arith, length-pop id rest)

-- A pop frees a slot of its id, if there is one, and leaves the other ids alone.
pub holders-pop :
    (id : List ℕ) (st : List Session)
    → id ≢ zero_id
    → holders id (musigsession_pop id st).1 ≡ holders id st - 1
unfolding musigsession_pop
holders-pop id [] h = refl
holders-pop id (s ∷ rest) h =
    let zeroed : bytes_eq id zero_id ≡ false = bytes_eq_complete id zero_id h in
    ground (arith, holders-pop id rest h)

pub holders-pop_other :
    (id other : List ℕ) (st : List Session)
    → other ≢ zero_id
    → other ≢ id
    → holders other (musigsession_pop id st).1 ≡ holders other st
unfolding musigsession_pop
holders-pop_other id other [] h d = refl
holders-pop_other id other (s ∷ rest) h d =
    let zeroed : bytes_eq other zero_id ≡ false = bytes_eq_complete other zero_id h in
    elim (Bool-cases (bytes_eq id s.id)) [
      | inl e ↦
          let apart : bytes_eq other s.id ≡ false =
            bytes_eq_complete other s.id (λ q. d (q ∙ sym (bytes_eq_sound id s.id e))) in
          ground arith
      | inr e ↦ ground (arith, holders-pop_other id other rest h d)
    ]

pub pop-none :
    (id : List ℕ) (st : List Session) → holders id st ≡ 0 → musigsession_pop id st ≡ (none, st)
unfolding musigsession_pop
pop-none id [] h = refl
pop-none id (s ∷ rest) h = ground (arith, pop-none id rest)

pub holders-set :
    (id : List ℕ) (st : List Session) (i : ℕ) (s : Session)
    → holders id (set st i s) ≤ holders id st + (if bytes_eq id s.id then 1 else 0)
holders-set id [] i s = ground arith
holders-set id (x ∷ rest) zero s = ground arith
holders-set id (x ∷ rest) (suc i) s = omega (arith, holders-set id rest i s)

-- A session that is written to a slot of a storage without its id is what a pop then finds.
pub pop-set :
    (st : List Session) (i : ℕ) (s : Session)
    → holders s.id st ≡ 0
    → i < length st
    → musigsession_pop s.id (set st i s) ≡ (some s, set st i zero_session)
unfolding musigsession_pop
pop-set [] i s h l = absurd (omega arith)
pop-set (x ∷ rest) zero s h l = let e = bytes_eq_refl s.id in ground arith
pop-set (x ∷ rest) (suc i) s h l = ground (arith, pop-set rest i s)

pub apart : (a b : List ℕ) → bytes_eq a b ≡ false → a ≢ b
apart a b e q =
    let same : bytes_eq a b ≡ true = subst (λ c. bytes_eq a c ≡ true) q (bytes_eq_refl a) in cc

pub pop-IsStorage :
    (id : List ℕ) (st : List Session) → IsStorage st → IsStorage (musigsession_pop id st).1
pop-IsStorage id st v = record {
  slots = length-pop id st ∙ v.slots;
  unique = λ other d. elim (Bool-cases (bytes_eq other id)) [
    | inl e ↦
        let same : other ≡ id = bytes_eq_sound other id e in
        rw same (
          omega (
            arith,
            holders-pop id st (λ q. d (same ∙ q)),
            v.unique other d,
            ap (λ x. holders x st) same,
          ))
    | inr e ↦ omega (arith, holders-pop_other id other st d (apart other id e), v.unique other d)
  ];
}

-- A store into a storage leaves a storage, if the session has the id that it is stored under.
pub store-IsStorage :
    (s : Session) (st : List Session) → IsStorage st → IsStorage (musigsession_store s.id s st)
unfolding musigsession_store
store-IsStorage s st v =
    let popped = (musigsession_pop s.id st).1 in
    let i = free_slot popped in
    let slot = if leb max_n_musig_sessions i then 0 else i in
    let w = pop-IsStorage s.id st v in
    record {
      slots = length-set popped slot s ∙ w.slots;
      unique = λ other d. elim (Bool-cases (bytes_eq other s.id)) [
        | inl e ↦
            let same : other ≡ s.id = bytes_eq_sound other s.id e in
            let nonzero : s.id ≢ zero_id = λ q. d (same ∙ q) in
            rw same (
              ground (
                arith,
                holders-set s.id popped slot s,
                bytes_eq_refl s.id,
                holders-pop s.id st nonzero,
                v.unique s.id nonzero,
              ))
        | inr e ↦ ground (arith, holders-set other popped slot s, w.unique other d)
      ];
    }
