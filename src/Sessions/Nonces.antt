-- ===== src/Sessions/Nonces.antt =====
-- The randomness of two placeholders of one session.
use ledger_babylon_app.Common.{
  ℕ, ◌%◌, ◌^◌, ◌<◌, ◌≡◌, ◌≢◌, ◌⊎◌, inl, inr, refl, sym, ap, ap₂, ◌∙◌, arith, List, [], ◌∷◌, ◌++◌,
  length, take, drop, replicate, take-append, drop-append, bytes_eq, bytes_eq_sound, Bool-cases,
  bytes_eq_refl, true, false,
}
use mathlib.Core.List.{flatten}
use native.Mathlib.Nat.{mod-eq_of_lt}
use ledger_babylon_app.Bytes.{read_u32_be, write_u32_be}
use ledger_babylon_app.Bytes.RoundTrip.{read_u32_be-write_u32_be}
use ledger_babylon_app.Merkle.{Sha256, Collision}
use ledger_babylon_app.Sessions.{Session, compute_rand_i_j, u32_bytes}

length-u32_bytes : (v : ℕ) → length (u32_bytes v) ≡ 4
unfolding write_u32_be
length-u32_bytes v = refl

u32_bytes-injective : (v w : ℕ) → v < 2 ^ 32 → w < 2 ^ 32 → u32_bytes v ≡ u32_bytes w → v ≡ w
u32_bytes-injective v w hv hw e =
    sym (read_u32_be-write_u32_be (replicate 4 0) 0 v (omega arith) hv)
    ∙ ap (λ p. read_u32_be p 0) e
    ∙ read_u32_be-write_u32_be (replicate 4 0) 0 w (omega arith) hw

message : Session → ℕ → ℕ → List ℕ
message s i j = s.rand_root ++ (u32_bytes i ++ u32_bytes j)

message-injective :
    (s : Session) (i j k l : ℕ)
    → i < 2 ^ 32
    → j < 2 ^ 32
    → k < 2 ^ 32
    → l < 2 ^ 32
    → message s i j ≡ message s k l
    → (i ≡ k) × (j ≡ l)
unfolding message
message-injective s i j k l hi hj hk hl e =
    let n = length s.rand_root in
    let tails : u32_bytes i ++ u32_bytes j ≡ u32_bytes k ++ u32_bytes l =
      sym (drop-append s.rand_root _ n refl) ∙ ap (drop n) e ∙ drop-append s.rand_root _ n refl in
    let firsts : u32_bytes i ≡ u32_bytes k =
      sym (take-append (u32_bytes i) _ 4 (sym (length-u32_bytes i)))
      ∙ ap (take 4) tails
      ∙ take-append (u32_bytes k) _ 4 (sym (length-u32_bytes k)) in
    let seconds : u32_bytes j ≡ u32_bytes l =
      sym (drop-append (u32_bytes i) _ 4 (sym (length-u32_bytes i)))
      ∙ ap (drop 4) tails
      ∙ drop-append (u32_bytes k) _ 4 (sym (length-u32_bytes k)) in
    (u32_bytes-injective i k hi hk firsts, u32_bytes-injective j l hj hl seconds)

rand-message :
    (sha : Sha256) (s : Session) (i j : ℕ)
    → i < 2 ^ 32
    → j < 2 ^ 32
    → compute_rand_i_j sha s i j ≡ sha.sha256 (message s i j)
unfolding compute_rand_i_j message flatten write_u32_be
rand-message sha s i j hi hj =
    sha.digest_lem (s.rand_root ∷ (u32_bytes (i % 2 ^ 32) ∷ (u32_bytes (j % 2 ^ 32) ∷ [])))
    ∙ ap₂ (λ a b. sha.sha256 (message s a b)) (mod-eq_of_lt {n = i} {m = 2 ^ 32} hi)
        (mod-eq_of_lt {n = j} {m = 2 ^ 32} hj)

-- Two pairs of input and placeholder indices of 32 bits that give a session the same randomness are
-- the same pair, unless there are two different messages with one SHA-256 hash at hand.
pub rand_i_j-injective :
    (sha : Sha256) (s : Session) (i j k l : ℕ)
    → i < 2 ^ 32
    → j < 2 ^ 32
    → k < 2 ^ 32
    → l < 2 ^ 32
    → compute_rand_i_j sha s i j ≡ compute_rand_i_j sha s k l
    → ((i ≡ k) × (j ≡ l)) ⊎ Collision sha
rand_i_j-injective sha s i j k l hi hj hk hl e =
    let same_hash : sha.sha256 (message s i j) ≡ sha.sha256 (message s k l) =
      sym (rand-message sha s i j hi hj) ∙ e ∙ rand-message sha s k l hk hl in
    elim (Bool-cases (bytes_eq (message s i j) (message s k l))) [
      | inl same ↦ inl (message-injective s i j k l hi hj hk hl (bytes_eq_sound _ _ same))
      | inr differ ↦ inr (message s i j, message s k l, differs differ, same_hash)
    ]
  where
    differs : bytes_eq (message s i j) (message s k l) ≡ false → message s i j ≢ message s k l
    differs d q =
        let t : bytes_eq (message s i j) (message s k l) ≡ true =
          rw q (bytes_eq_refl (message s k l)) in
        cc
