-- ===== src/Io/Sends.antt =====
-- What goes out of src/boilerplate/io.c.
use ledger_babylon_app.Common.{
  ℕ, zero, suc, ◌+◌, ◌-◌, ◌^◌, ◌≤◌, ◌<◌, ◌≡◌, ◌⊎◌, inr, lt→ltb, leb, leb→le, leb-false, Bool-cases,
  inl, length-drop, refl, sym, ap, ◌∙◌, arith, List, [], ◌∷◌, ◌++◌, none, some, if◌then◌else◌, ltb,
  take_all, length, drop, take, add_size, sub_size, size_mod, take-append, length-append,
  append_assoc,
}
use mathlib.Core.Option.{map}
use ledger_babylon_app.Bytes.{byte_of, write_u16_be}
use ledger_babylon_app.Bytes.RoundTrip.{write_u16_be-suc}
use ledger_babylon_app.Io.{
  sw_wrong_response_length, too_long, Response, io_add_to_response, io_finalize_response,
  io_reset_response, io_set_response, io_confirm_response, io_send_response, io_send_sw,
}

-- The two bytes of a status word.
abbrev pub status : ℕ → List ℕ
status sw = byte_of sw 8 ∷ byte_of sw 0 ∷ []

write_status :
    (bs rest : List ℕ) (a b sw : ℕ)
    → write_u16_be (bs ++ (a ∷ b ∷ rest)) (length bs) sw ≡ bs ++ (status sw ++ rest)
unfolding write_u16_be
write_status [] rest a b sw = refl
write_status (x ∷ bs) rest a b sw =
    write_u16_be-suc x (bs ++ (a ∷ b ∷ rest)) (length bs) sw
    ∙ ap (λ t. x ∷ t) (write_status bs rest a b sw)

-- The first bytes of an array with room for them, and two bytes behind them.
written :
    (bs rest : List ℕ) (sw : ℕ)
    → 2 ≤ length rest
    → take (length bs + 2) (write_u16_be (bs ++ rest) (length bs) sw) ≡ bs ++ status sw
written bs (a ∷ b ∷ rest) sw h =
    ap (take (length bs + 2)) (write_status bs rest a b sw ∙ sym (append_assoc bs (status sw) rest))
    ∙ take-append (bs ++ status sw) rest (length bs + 2)
        (omega (arith, length-append bs (status sw)))
written bs _ sw h = absurd (omega arith)

-- The status that goes out behind the bytes: a response that fills the array is refused.
abbrev pub sent_status : ℕ → List ℕ → ℕ → ℕ
sent_status size bs sw = if ltb (length bs + 2) size then sw else sw_wrong_response_length

module _ (size : ℕ) (large : 2 < size) (small : size < 2 ^ 16) where
  -- A call that cannot end: what is too long leads to a length that is again too long.
  again_too_long :
      (o n : ℕ)
      → o < size - 2
      → size - 2 < o + n
      → (n < o) ⊎ ((o + size < n + 2) × (o + n < size_mod))
      → let n' = sub_size (size - 2) n in
        (size - 2 < add_size o n)
        × (size - 2 < o + n')
        × ((n' < o) ⊎ ((o + size < n' + 2) × (o + n' < size_mod)))
  again_too_long o n h1 h2 h3 = (omega arith, omega arith, omega arith)

  -- Then no number of calls is enough.
  add_to_response_hangs :
      (fuel : ℕ) (rdata : List ℕ) (n : ℕ) (r : Response)
      → r.output_len < size - 2
      → size - 2 < r.output_len + n
      → (n < r.output_len) ⊎ ((r.output_len + size < n + 2) × (r.output_len + n < size_mod))
      → io_add_to_response fuel size rdata n r ≡ none
  unfolding io_add_to_response
  add_to_response_hangs zero rdata n r h1 h2 h3 = refl
  add_to_response_hangs (suc fuel) rdata n r h1 h2 h3 =
      let (more, next, kind) = again_too_long r.output_len n h1 h2 h3 in
      let ih = add_to_response_hangs fuel rdata (sub_size (size - 2) n) r h1 next kind in
      ground (arith, ih, more, h1)

  add_to_response-fits :
      (fuel : ℕ) (rdata : List ℕ) (r : Response)
      → length rdata + 2 ≤ size
      → io_add_to_response (suc fuel) size rdata (length rdata) (io_reset_response r)
        ≡ some
            (record r { buffer = rdata ++ drop (length rdata) r.buffer; output_len = length rdata })
  unfolding io_add_to_response io_reset_response
  add_to_response-fits fuel rdata r h = ground (arith, take_all rdata (length rdata))

  finalize-fits :
      (bs rest : List ℕ) (sw : ℕ) (sent : List (List ℕ))
      → length bs + 2 ≤ size
      → io_finalize_response size sw
          (record { buffer = bs ++ rest; output_len = length bs; sent = sent })
        ≡ record {
          buffer = write_u16_be (bs ++ rest) (length bs) (sent_status size bs sw);
          output_len = length bs + 2;
          sent = sent;
        }
  unfolding io_finalize_response too_long
  finalize-fits bs rest sw sent h = ground arith

  finish_lem :
      (bs rest : List ℕ) (sw : ℕ) (sent : List (List ℕ))
      → length bs + 2 ≤ size
      → 2 ≤ length rest
      → (io_confirm_response (
          io_finalize_response size sw
            (record { buffer = bs ++ rest; output_len = length bs; sent = sent }))).sent
        ≡ (bs ++ status (sent_status size bs sw)) ∷ sent
  unfolding io_confirm_response
  finish_lem bs rest sw sent h room =
      rw (finalize-fits bs rest sw sent h, written bs rest (sent_status size bs sw) room) refl

  -- What goes out for a status word alone is the word.
  pub send_sw_lem :
      (sw : ℕ) (r : Response)
      → size ≤ length r.buffer
      → (io_send_sw size sw r).sent ≡ status sw ∷ r.sent
  unfolding io_send_sw io_reset_response
  send_sw_lem sw r room =
      finish_lem [] r.buffer sw r.sent (omega arith) (omega arith) ∙ rw (lt→ltb 2 size large) refl

  -- What `io_send_response` sends for data, in an array of `size` bytes and below a counter of 16 bits:
  -- if the data are shorter than `size - 2` bytes, the data and the status word; if they are just as
  -- long, the data and the status SW_WRONG_RESPONSE_LENGTH; if they are longer, by less than 2^32,
  -- then `io_add_to_response` calls itself for
  -- ever, and nothing goes out.
  pub send_response_lem :
      (rdata : List ℕ) (sw : ℕ) (r : Response)
      → size ≤ length r.buffer
      → length rdata < size_mod
      → (fuel : ℕ)
      → map (λ r'. r'.sent) (io_send_response (suc fuel) size (some rdata) sw r) ≡ (
          if leb (length rdata + 2) size
          then some ((rdata ++ status (sent_status size rdata sw)) ∷ r.sent)
          else none)
  unfolding io_send_response io_set_response io_reset_response
  send_response_lem rdata sw r room word fuel = elim (Bool-cases (leb (length rdata + 2) size)) [
    | inl fits ↦
        let fit = leb→le (length rdata + 2) size fits in
        rw (fits, add_to_response-fits fuel rdata r fit)
          (ap some (
            finish_lem rdata (drop (length rdata) r.buffer) sw r.sent fit
              (omega (arith, length-drop (length rdata) r.buffer))))
    | inr long ↦
        let over = leb-false (length rdata + 2) size long in
        rw
          (
            long,
            add_to_response_hangs (suc fuel) rdata (length rdata) (io_reset_response r)
                (omega arith) (omega arith) (inr (omega arith)),
          )
          refl
  ]
