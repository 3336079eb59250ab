-- ===== src/Client.antt =====
-- The device's side of the conversation with the host: the state of the dispatcher during a command,
-- and `process_interruption` of src/boilerplate/dispatcher.c. The host is the list of the messages
-- that it will send; it is not trusted, and the theorems hold for every list.
pub mod Valid
pub mod Spends
pub mod LeafHash
pub mod Preimage
pub mod Map
pub mod Stream
mod Tests
use ledger_babylon_app.Common.{
  ℕ, zero, suc, ◌+◌, ◌*◌, ◌/◌, ◌%◌, ◌≡◌, refl, List, [], ◌∷◌, ◌++◌, Bool, true, false, ◌&&◌, Option,
  none, some, if◌then◌else◌, leb, ltb, ◌==◌, length, take, drop, replicate,
}
use ledger_babylon_app.Buffer.{
  Buffer, buffer_create, buffer_can_read, buffer_read_u8, buffer_read_varint, buffer_read_bytes,
}
use ledger_babylon_app.Varint.{varint_write}
use ledger_babylon_app.Apdu.{Command, apdu_parser}

-- The result of a call that may fail: `err n` is the C result -n. `stuck` is no C result: a loop of
-- the model ran out of fuel, or the code does not end.
pub data Res {ℓ} (A : Type ℓ) : Type ℓ where
  ok : A → Res A
  err : ℕ → Res A
  stuck : Res A

-- `G_io_apdu_buffer`, the buffer to read from, the messages that the host will send, and those sent
-- to it, the last one first.
pub record Dc : Type 0 where
  pub apdu_buffer : List ℕ
  pub read_buffer : Buffer
  pub inbox : List (List ℕ)
  pub sent : List (List ℕ)

abbrev pub M : Type 0 → Type 0
M A = Dc → Res A × Dc

abbrev pub continue : {A B : Type 0} → Res A → Dc → (A → M B) → Res B × Dc
continue (ok a) dc f = f a dc
continue (err n) dc f = (err n, dc)
continue stuck dc f = (stuck, dc)

infixl 5 ◌>>=◌ ◌>>◌
abbrev pub ◌>>=◌ : {A B : Type 0} → M A → (A → M B) → M B
◌>>=◌ m f dc = continue (m dc).0 (m dc).1 f

abbrev pub ◌>>◌ : {B : Type 0} → M (Unit {0}) → M B → M B
m >> k = m >>= λ _. k

abbrev pub return : {A : Type 0} → A → M A
return a dc = (ok a, dc)

abbrev pub fail_with : {A : Type 0} → ℕ → M A
fail_with n dc = (err n, dc)

abbrev pub hang : {A : Type 0} → M A
hang dc = (stuck, dc)

abbrev pub guard : Bool → ℕ → M (Unit {0})
guard b n dc = (if b then ok tt else err n, dc)

-- IO_APDU_BUFFER_SIZE of the device's SDK: a message is cut there.
abbrev pub io_apdu_buffer_size : ℕ
io_apdu_buffer_size = 260

-- A message in the buffer, over what the buffer held.
abbrev pub overwrite : List ℕ → List ℕ → List ℕ
overwrite message old = message ++ drop (length message) old

-- `SEND_SW`: a status word alone.
abbrev pub send_sw : ℕ → Dc → Dc
send_sw sw dc = record dc { sent = (sw / 256 ∷ sw % 256 ∷ []) ∷ dc.sent }

unfoldable pub accept : Option Command → Dc → Bool × Dc
accept none dc = (false, send_sw 0x6a87 dc)
accept (some cmd) dc =
    if cmd.cla == 0xf8 && cmd.ins == 0x01
    then (true, record dc { read_buffer = buffer_create cmd.bytes cmd.lc })
    else (false, send_sw 0x6a80 dc)

-- The message that `io_exchange` receives, if there is one, is parsed in the buffer.
unfoldable pub receive : List (List ℕ) → Dc → Bool × Dc
unfolding accept
receive [] dc = (false, dc)
receive (m ∷ rest) dc =
    let message = take io_apdu_buffer_size m in
    let buffer = overwrite message dc.apdu_buffer in
    accept (apdu_parser buffer (length message)) (record dc { apdu_buffer = buffer; inbox = rest })

-- The response with status SW_INTERRUPTED_EXECUTION goes out, then the host's next message comes in.
unfoldable pub process_interruption : List ℕ → Dc → Bool × Dc
unfolding receive
process_interruption response dc =
    let out = response ++ (0xe0 ∷ 0x00 ∷ []) in
    receive dc.inbox
      (record dc { apdu_buffer = overwrite out dc.apdu_buffer; sent = out ∷ dc.sent })

-- The same as a step of a call that returns -`n` if it fails.
unfoldable pub interrupt : List ℕ → ℕ → M (Unit {0})
interrupt response n dc =
    let (done, dc') = process_interruption response dc in (if done then ok tt else err n, dc')

-- Reads from `dc->read_buffer` in a call that returns -`n` where they fail.
unfoldable pub read_bytes : ℕ → ℕ → M (List ℕ)
read_bytes k n dc =
    let (done, out, b) = buffer_read_bytes dc.read_buffer k in
    (if done then ok out else err n, record dc { read_buffer = b })

unfoldable pub read_u8 : ℕ → M ℕ
read_u8 n dc =
    let (done, out, b) = buffer_read_u8 dc.read_buffer in
    (if done then ok out else err n, record dc { read_buffer = b })

unfoldable pub read_varint : ℕ → M ℕ
read_varint n dc =
    let (done, out, b) = buffer_read_varint dc.read_buffer in
    (if done then ok out else err n, record dc { read_buffer = b })

unfoldable pub can_read : ℕ → ℕ → M (Unit {0})
can_read k n dc = guard (buffer_can_read dc.read_buffer k) n dc

-- The bytes of a varint in a request.
unfoldable pub varint_bytes : ℕ → List ℕ
varint_bytes v = let (out, n) = varint_write (replicate 9 0) 0 v in take n out

-- Inversion of a bind that succeeds.
pub >>=-eq-ok :
    {A B : Type 0} (m : M A) (f : A → M B) (dc : Dc) {b : B} {dc' : Dc}
    → (m >>= f) dc ≡ (ok b, dc')
    → (a : A) × (d : Dc) × (m dc ≡ (ok a, d)) × (f a d ≡ (ok b, dc'))
>>=-eq-ok {A} {B} m f dc {b} {dc'} e = go (m dc) refl e
  where
    go :
        (p : Res A × Dc)
        → m dc ≡ p
        → continue p.0 p.1 f ≡ (ok b, dc')
        → (a : A) × (d : Dc) × (m dc ≡ (ok a, d)) × (f a d ≡ (ok b, dc'))
    go (ok a, d) h e = (a, d, h, e)
    go (err n, d) h e = cc
    go (stuck, d) h e = cc
