-- ===== src/Io/Tests.antt =====
-- Responses and ticks.
use ledger_babylon_app.Common.{ℕ, arith, replicate, ◌≡◌, refl, [], ◌∷◌, Bool, true, false, some}
use ledger_babylon_app.Bytes.{write_u16_be}
use mathlib.Core.Option.{map}
use ledger_babylon_app.Io.Sends.{status, send_response_lem}
use ledger_babylon_app.Io.{
  Response, Timeouts, io_send_response, io_set_response, io_add_to_response, io_finalize_response,
  io_reset_response, io_confirm_response, too_long, io_event_tick, tick_processing,
  tick_interruption, expired, io_clear_interruption_timeout,
}

abbrev eight : Response
eight = record { buffer = 1 ∷ 2 ∷ 3 ∷ 4 ∷ 5 ∷ 6 ∷ 7 ∷ 8 ∷ []; output_len = 5; sent = [] }

sent_eight :
    io_send_response 1 8 (some (10 ∷ 11 ∷ 12 ∷ [])) 0x9000 eight
    ≡ some (record {
      buffer = 10 ∷ 11 ∷ 12 ∷ 0x90 ∷ 0 ∷ 6 ∷ 7 ∷ 8 ∷ [];
      output_len = 0;
      sent = (10 ∷ 11 ∷ 12 ∷ 0x90 ∷ 0 ∷ []) ∷ [];
    })
unfolding io_send_response io_set_response io_add_to_response io_finalize_response io_reset_response
    io_confirm_response too_long write_u16_be
sent_eight = refl

-- Two bytes stand in the response, five are added to six places: one byte of them is put there,
-- where there was room for four.
cut_short :
    io_add_to_response 2 8 (10 ∷ 11 ∷ 12 ∷ 13 ∷ 14 ∷ []) 5 (record eight { output_len = 2 })
    ≡ some (record { buffer = 1 ∷ 2 ∷ 10 ∷ 0xb0 ∷ 0 ∷ 6 ∷ 7 ∷ 8 ∷ []; output_len = 5; sent = [] })
unfolding io_add_to_response io_finalize_response too_long write_u16_be
cut_short = refl

abbrev started : ℕ → Timeouts
started n = record {
  ticks = n;
  interruption = true;
  processing = false;
  interruption_start = n;
  processing_start = 0;
  was_processing_screen_shown = false;
}

unfoldable after : ℕ → ℕ → Bool
unfolding io_event_tick tick_processing tick_interruption expired io_clear_interruption_timeout
after start now = (io_event_tick (record (started start) { ticks = now })).0

reset_in_time : after 100 149 ≡ true
unfolding after
reset_in_time = refl

-- A timeout that is started less than 50 ticks before the counter wraps never comes.
never_reset_at_the_end : after 65500 65534 ≡ false
unfolding after
never_reset_at_the_end = refl

never_reset_after_it : after 65500 60 ≡ false
unfolding after
never_reset_after_it = refl

-- Six bytes fill the array of eight up to the status.
send_response_lem_example :
    map (λ r'. r'.sent) (io_send_response 5 8 (some (replicate 6 1)) 0x9000 eight)
    ≡ some ((1 ∷ 1 ∷ 1 ∷ 1 ∷ 1 ∷ 1 ∷ status 0xb000) ∷ [])
send_response_lem_example =
    send_response_lem 8 (omega arith) (omega arith) (replicate 6 1) 0x9000 eight (omega arith)
      (omega arith) 4
