-- ===== src/Client/Spends.antt =====
-- How many messages of the host a call takes, whatever its result.
use ledger_babylon_app.Common.{
  ℕ, suc, ◌+◌, ◌-◌, ◌≤◌, ◌<◌, ◌≡◌, ◌≢◌, subst, sym, inl, inr, Bool-cases, ◌==◌, ◌&&◌, refl, ap, ◌∙◌,
  arith, List, [], ◌∷◌, Bool, true, false, if◌then◌else◌, length, Option, none, some, take, drop,
  All, length-take, get_or-append, get_or-take, get_or-drop,
}
use ledger_babylon_app.Bytes.{byte_at}
use ledger_babylon_app.Buffer.{
  buffer_read_u8, buffer_read_varint, buffer_read_bytes, buffer_can_read,
}
use ledger_babylon_app.Apdu.{Command, apdu_parser}
use ledger_babylon_app.Client.{
  Res, Dc, M, ok, err, stuck, continue, ◌>>=◌, guard, accept, receive, process_interruption,
  interrupt, read_bytes, read_u8, read_varint, can_read, io_apdu_buffer_size, overwrite,
}

-- The call ends, and of the `before` messages that the host had it has taken at most `most`.
abbrev pub EndsWithin : {A : Type 0} → ℕ → ℕ → Res A × Dc → Type 0
EndsWithin most before (ok a, d) = before ≤ length d.inbox + most
EndsWithin most before (err n, d) = before ≤ length d.inbox + most
EndsWithin most before (stuck, d) = ⊥

-- The host's message announces at least one element: the first byte of its data is not 0.
abbrev pub IsNonempty : List ℕ → Type 0
IsNonempty m = byte_at m 5 ≢ 0

-- A result that is not `stuck`; at least `k` messages are left after an error, and `P` holds of a
-- result that is `ok`.
abbrev pub Spends : {A : Type 0} → Res A × Dc → ℕ → (A → Dc → Type 0) → Type 0
Spends (ok a, d) k P = P a d
Spends (err n, d) k P = k ≤ length d.inbox
Spends (stuck, d) k P = ⊥

pub Spends-EndsWithin :
    {A : Type 0} (most before : ℕ) (r : Res A × Dc)
    → Spends r (before - most) (λ a d. before - most ≤ length d.inbox)
    → EndsWithin most before r
Spends-EndsWithin most before (ok a, d) h = omega arith
Spends-EndsWithin most before (err n, d) h = omega arith
Spends-EndsWithin most before (stuck, d) h = h

pub Spends-bind :
    {A B : Type 0} (m : M A) (f : A → M B) (dc : Dc) (k : ℕ) (P : A → Dc → Type 0)
    (Q : B → Dc → Type 0)
    → Spends (m dc) k P
    → ((a : A) (d : Dc) → P a d → Spends (f a d) k Q)
    → Spends ((m >>= f) dc) k Q
Spends-bind {A} {B} m f dc k P Q s h = go (m dc) s
  where
    go : (r : Res A × Dc) → Spends r k P → Spends (continue r.0 r.1 f) k Q
    go (ok a, d) s = h a d s
    go (err e, d) s = s
    go (stuck, d) s = s

Spends-if :
    {A : Type 0} (b : Bool) (a : A) (e k : ℕ) (d : Dc) (P : A → Dc → Type 0)
    → k ≤ length d.inbox
    → (b ≡ true → P a d)
    → Spends (if b then ok a else err e, d) k P
Spends-if true a e k d P h p = p refl
Spends-if false a e k d P h p = h

parsed :
    (buf : List ℕ) (n : ℕ) {c : Command}
    → apdu_parser buf n ≡ some c
    → (n ≡ 5 + c.lc) × (0 < c.lc → c.bytes ≡ drop 5 buf)
unfolding apdu_parser
parsed buf n e = ground arith

-- The bytes of the data are those of the message.
data_byte :
    (m old : List ℕ) {c : Command} (i : ℕ)
    → apdu_parser (overwrite (take io_apdu_buffer_size m) old) (length (take io_apdu_buffer_size m))
      ≡ some c
    → i < c.lc
    → byte_at c.bytes i ≡ byte_at m (5 + i)
data_byte m old {c} i e h =
    let message = take io_apdu_buffer_size m in
    let (size, same) = parsed (overwrite message old) (length message) e in
    let short : length message ≤ io_apdu_buffer_size =
      omega (arith, length-take io_apdu_buffer_size m) in
    ap (λ bs. byte_at bs i) (same (omega arith))
    ∙ get_or-drop 5 i (overwrite message old) 0
    ∙ get_or-append message (drop (length message) old) (5 + i) 0 (omega arith)
    ∙ get_or-take io_apdu_buffer_size m (5 + i) 0 (omega arith)

-- The message `m` has been read into the buffer, and `rest` is to come.
abbrev pub Opened : List ℕ → List (List ℕ) → Dc → Type 0
Opened m rest d =
    (d.inbox ≡ rest)
    × (d.read_buffer.offset ≡ 0)
    × ((i : ℕ) → i < d.read_buffer.size → byte_at d.read_buffer.ptr i ≡ byte_at m (5 + i))

accept-Spends :
    (c : Option Command) (dc : Dc) (e k : ℕ) (m : List ℕ)
    → ((cmd : Command)
        → c ≡ some cmd
        → (i : ℕ) → i < cmd.lc
        → byte_at cmd.bytes i ≡ byte_at m (5 + i))
    → k ≤ length dc.inbox
    → let (done, d) = accept c dc in
      Spends (if done then ok tt else err e, d) k (λ u d'. Opened m dc.inbox d')
unfolding accept
accept-Spends none dc e k m h b = b
accept-Spends (some cmd) dc e k m h b = elim (Bool-cases (cmd.cla == 0xf8 && cmd.ins == 0x01)) [
  | inl t ↦ rw t (refl, refl, h cmd refl)
  | inr f ↦ rw f b
]

-- The first of the messages has been read into the buffer.
abbrev pub Taken : List (List ℕ) → Dc → Type 0
Taken inbox d = (m : List ℕ) × (rest : List (List ℕ)) × (inbox ≡ m ∷ rest) × Opened m rest d

pub Spends-weaken :
    {A : Type 0} (r : Res A × Dc) (k : ℕ) (P Q : A → Dc → Type 0)
    → Spends r k P
    → ((a : A) (d : Dc) → P a d → Q a d)
    → Spends r k Q
Spends-weaken (ok a, d) k P Q s h = h a d s
Spends-weaken (err n, d) k P Q s h = s
Spends-weaken (stuck, d) k P Q s h = s

pub Spends-choose :
    {A : Type 0} (b : Bool) (x y : M A) (dc : Dc) (k : ℕ) (P : A → Dc → Type 0)
    → (b ≡ true → Spends (x dc) k P)
    → (b ≡ false → Spends (y dc) k P)
    → Spends ((if b then x else y) dc) k P
Spends-choose true x y dc k P p q = p refl
Spends-choose false x y dc k P p q = q refl

receive-Spends :
    (inbox : List (List ℕ)) (dc : Dc) (e k : ℕ)
    → k ≤ length inbox - 1
    → let (done, d) = receive inbox dc in
      Spends (if done then ok tt else err e, d) k (λ u d'. Taken inbox d')
unfolding receive
receive-Spends [] dc e k h = omega arith
receive-Spends (m ∷ rest) dc e k h =
    let message = take io_apdu_buffer_size m in
    let buffer = overwrite message dc.apdu_buffer in
    let c = apdu_parser buffer (length message) in
    let dc' : Dc = record dc { apdu_buffer = buffer; inbox = rest } in
    let (done, d) = accept c dc' in
    Spends-weaken (if done then ok tt else err e, d) k (λ u d'. Opened m rest d')
      (λ u d'. Taken (m ∷ rest) d')
      (accept-Spends c dc' e k m (λ cmd g i. data_byte m dc.apdu_buffer i g) (omega arith))
      (λ u d' o. (m, rest, refl, o))

pub interrupt-Spends :
    (response : List ℕ) (e : ℕ) (dc : Dc) (k : ℕ)
    → k ≤ length dc.inbox - 1
    → Spends (interrupt response e dc) k (λ u d. Taken dc.inbox d)
unfolding interrupt process_interruption
interrupt-Spends response e dc k h = receive-Spends dc.inbox _ e k h

-- A read from the buffer takes no message.
module _ (e : ℕ) (dc : Dc) (k : ℕ) (h : k ≤ length dc.inbox) where
  pub read_u8-Spends : Spends (read_u8 e dc) k (λ x d.
      (d.inbox ≡ dc.inbox)
      × (x ≡ byte_at dc.read_buffer.ptr dc.read_buffer.offset)
      × (buffer_can_read dc.read_buffer 1 ≡ true))
  unfolding read_u8 buffer_read_u8
  read_u8-Spends = Spends-if (buffer_read_u8 dc.read_buffer).0 _ e k _ _ h (λ t. ground arith)

  pub read_varint-Spends : Spends (read_varint e dc) k (λ x d. d.inbox ≡ dc.inbox)
  unfolding read_varint
  read_varint-Spends = Spends-if (buffer_read_varint dc.read_buffer).0 _ e k _ _ h (λ t. refl)

  pub read_bytes-Spends :
      (n : ℕ)
      → Spends (read_bytes n e dc) k (λ x d.
        (d.inbox ≡ dc.inbox)
        × (d.read_buffer ≡ (buffer_read_bytes dc.read_buffer n).2)
        × ((buffer_read_bytes dc.read_buffer n).0 ≡ true))
  unfolding read_bytes
  read_bytes-Spends n =
      Spends-if (buffer_read_bytes dc.read_buffer n).0 _ e k _ _ h (λ t. (refl, refl, t))

  pub can_read-Spends : (n : ℕ) → Spends (can_read n e dc) k (λ u d. d.inbox ≡ dc.inbox)
  unfolding can_read
  can_read-Spends n = Spends-if (buffer_can_read dc.read_buffer n) tt e k dc _ h (λ t. refl)

  pub guard-Spends : (b : Bool) → Spends (guard b e dc) k (λ u d. (d.inbox ≡ dc.inbox) × (b ≡ true))
  guard-Spends b = Spends-if b tt e k dc _ h (λ t. (refl, t))

-- A message that is not empty announces at least one element; and it was one of those to come.
pub announced :
    (inbox : List (List ℕ)) (d : Dc)
    → All IsNonempty inbox
    → Taken inbox d
    → ((suc (length d.inbox) ≡ length inbox) × All IsNonempty d.inbox)
      × (buffer_can_read d.read_buffer 1 ≡ true
          → 1 ≤ byte_at d.read_buffer.ptr d.read_buffer.offset)
unfolding buffer_can_read
announced inbox d full (m, rest, split, (same, start, bytes)) =
    let (here, later) = subst (All IsNonempty) split full in
    (
      (rw (same, split) refl, subst (All IsNonempty) (sym same) later),
      λ t.
          let present : 0 < d.read_buffer.size = ground arith in
          let first = bytes 0 present in rw (start, first) (omega arith),
    )

-- The first message is gone.
abbrev pub FirstTaken : List (List ℕ) → Dc → Type 0
FirstTaken inbox d = (suc (length d.inbox) ≡ length inbox) × (d.inbox ≡ drop 1 inbox)

pub Taken-FirstTaken :
    (inbox : List (List ℕ)) (d d' : Dc) → Taken inbox d → d'.inbox ≡ d.inbox → FirstTaken inbox d'
Taken-FirstTaken inbox d d' (m, rest, split, (same, start, bytes)) e =
    (rw (e, same, split) refl, rw (e, same, split) refl)
