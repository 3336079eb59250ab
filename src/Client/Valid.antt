-- ===== src/Client/Valid.antt =====
-- After an interruption that succeeds, the read buffer is valid and unread.
use ledger_babylon_app.Common.{
  subst, if◌then◌else◌, Bool, refl, ℕ, ◌+◌, ◌≤◌, ◌<◌, ◌≡◌, arith, List, [], ◌∷◌, length, take, drop,
  length-append, length-take, true, false, Option, some, none, size_mod,
}
use ledger_babylon_app.Buffer.{
  buffer_read_bytes, buffer_read_u8, buffer_can_read, buffer_read_varint,
}
use ledger_babylon_app.Buffer.Bounds.{
  read_varint-IsValid, offset-read_u8, IsValid, read_bytes-IsValid, read_u8-IsValid, can_read_lem,
  length-read_bytes,
}
use ledger_babylon_app.Apdu.{Command, apdu_parser}
use ledger_babylon_app.Apdu.Bounds.{parser_bounds}
use ledger_babylon_app.Client.{
  read_varint, guard, return, Res, err, read_bytes, read_u8, can_read, accept, receive, Dc, ok,
  io_apdu_buffer_size, overwrite, process_interruption, interrupt,
}

message_fits :
    (m old : List ℕ) {c : Command}
    → apdu_parser (overwrite (take io_apdu_buffer_size m) old) (length (take io_apdu_buffer_size m))
      ≡ some c
    → (c.lc ≤ length c.bytes) × (c.lc < size_mod)
message_fits m old e =
    let message = take io_apdu_buffer_size m in
    let size : length message ≤ length (overwrite message old) =
      omega (arith, length-append message (drop (length message) old)) in
    let (total, fits) = parser_bounds (overwrite message old) (length message) size e in
    (fits, omega (arith, length-take io_apdu_buffer_size m))

abbrev Fits : Command → Type 0
Fits c = (c.lc ≤ length c.bytes) × (c.lc < size_mod)

abbrev pub Unread : Dc → Type 0
Unread dc = IsValid dc.read_buffer × (dc.read_buffer.offset ≡ 0)

accept-Unread :
    (c : Option Command) (dc : Dc) {dc' : Dc}
    → ((cmd : Command) → c ≡ some cmd → Fits cmd)
    → accept c dc ≡ (true, dc')
    → Unread dc'
unfolding accept
accept-Unread none dc fits e = cc
accept-Unread (some cmd) dc fits e = ground (arith, fits cmd refl)

receive-Unread :
    (inbox : List (List ℕ)) (dc : Dc) {dc' : Dc} → receive inbox dc ≡ (true, dc') → Unread dc'
unfolding receive
receive-Unread [] dc e = cc
receive-Unread (m ∷ rest) dc e = accept-Unread _ _ (λ cmd h. message_fits m dc.apdu_buffer h) e

process_interruption-Unread :
    (response : List ℕ) (dc : Dc) (r : Bool × Dc)
    → process_interruption response dc ≡ r
    → r.0 ≡ true
    → Unread r.1
unfolding process_interruption
process_interruption-Unread response dc (true, dc') e h = receive-Unread dc.inbox _ e
process_interruption-Unread response dc (false, dc') e h = cc

-- What `ok` says of a call that pairs a flag with a state.
flag_ok :
    {A : Type 0} (done : Bool) (a : A) (n : ℕ) (d : Dc) {x : A} {dc' : Dc}
    → ◌≡◌ {A = Res A × Dc} (if done then ok a else err n, d) (ok x, dc')
    → (done ≡ true) × (a ≡ x) × (d ≡ dc')
flag_ok true a n d e = (refl, cc, cc)
flag_ok false a n d e = cc

-- An interruption that succeeds leaves a valid buffer, read from its start.
pub interrupt-Unread :
    (response : List ℕ) (n : ℕ) (dc : Dc) {dc' : Dc}
    → interrupt response n dc ≡ (ok tt, dc')
    → Unread dc'
unfolding interrupt
interrupt-Unread response n dc e =
    let r = process_interruption response dc in
    let (done, same, state) = flag_ok r.0 tt n r.1 e in
    subst (λ d. Unread d) state (process_interruption-Unread response dc r refl done)

-- The reads of a call, where they succeed: the bytes there were, the state but for the cursor, and a
-- buffer that is still valid.
pub read_bytes-ok :
    (k n : ℕ) (dc : Dc) {out : List ℕ} {dc' : Dc}
    → IsValid dc.read_buffer
    → read_bytes k n dc ≡ (ok out, dc')
    → IsValid dc'.read_buffer × (length out ≡ k)
unfolding read_bytes
read_bytes-ok k n dc {dc'} v e =
    let r = buffer_read_bytes dc.read_buffer k in
    let (done, same, state) = flag_ok r.0 r.1 n (record dc { read_buffer = r.2 }) e in
    (
      subst (λ d. IsValid d.read_buffer) state (read_bytes-IsValid k v),
      rw (← same) (length-read_bytes k v done),
    )

pub read_u8-ok :
    (n : ℕ) (dc : Dc) {x : ℕ} {dc' : Dc}
    → IsValid dc.read_buffer
    → read_u8 n dc ≡ (ok x, dc')
    → IsValid dc'.read_buffer
unfolding read_u8
read_u8-ok n dc v e =
    let r = buffer_read_u8 dc.read_buffer in
    let (done, same, state) = flag_ok r.0 r.1 n (record dc { read_buffer = r.2 }) e in
    subst (λ d. IsValid d.read_buffer) state (read_u8-IsValid v)

pub read_u8-advances :
    (n : ℕ) (dc : Dc) {x : ℕ} {dc' : Dc}
    → IsValid dc.read_buffer
    → read_u8 n dc ≡ (ok x, dc')
    → dc'.read_buffer.offset ≡ dc.read_buffer.offset + 1
unfolding read_u8
read_u8-advances n dc v e =
    let r = buffer_read_u8 dc.read_buffer in
    let (done, same, state) = flag_ok r.0 r.1 n (record dc { read_buffer = r.2 }) e in
    subst (λ d. d.read_buffer.offset ≡ dc.read_buffer.offset + 1) state (offset-read_u8 v done)

pub read_varint-ok :
    (n : ℕ) (dc : Dc) {x : ℕ} {dc' : Dc}
    → IsValid dc.read_buffer
    → read_varint n dc ≡ (ok x, dc')
    → IsValid dc'.read_buffer
unfolding read_varint
read_varint-ok n dc v e =
    let r = buffer_read_varint dc.read_buffer in
    let (done, same, state) = flag_ok r.0 r.1 n (record dc { read_buffer = r.2 }) e in
    subst (λ d. IsValid d.read_buffer) state (read_varint-IsValid v)

pub can_read-ok :
    (k n : ℕ) (dc : Dc) {dc' : Dc}
    → IsValid dc.read_buffer
    → can_read k n dc ≡ (ok tt, dc')
    → (dc ≡ dc') × (dc.read_buffer.offset + k ≤ dc.read_buffer.size)
unfolding can_read
can_read-ok k n dc v e =
    let (done, same, state) = flag_ok (buffer_can_read dc.read_buffer k) tt n dc e in
    (state, can_read_lem k v done)

pub guard-ok :
    (b : Bool) (n : ℕ) (dc : Dc) {dc' : Dc} → guard b n dc ≡ (ok tt, dc') → (b ≡ true) × (dc ≡ dc')
guard-ok b n dc e = let (done, same, state) = flag_ok b tt n dc e in (done, state)

pub return-ok :
    {A : Type 0} (a : A) (dc : Dc) {b : A} {dc' : Dc}
    → return a dc ≡ (ok b, dc')
    → (a ≡ b) × (dc ≡ dc')
return-ok a dc e = (cc, cc)
