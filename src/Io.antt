-- ===== src/Io.antt =====
-- src/boilerplate/io.c: the response that is built up in the array for messages, and the two timeouts
-- that the ticks of the device drive. The size of the array is set by the SDK of the device and is a
-- parameter. The screens are left out, the flag that one is shown is not.
pub mod Sends
mod Tests
use ledger_babylon_app.Common.{
  ℕ, zero, suc, ◌+◌, ◌-◌, ◌%◌, ◌^◌, List, [], ◌∷◌, Bool, true, false, ◌&&◌, Option, none, some,
  if◌then◌else◌, leb, ltb, add_size, sub_size, take, length,
}
use mathlib.Core.Option.{map}
use ledger_babylon_app.Bytes.{write_u16_be}
use ledger_babylon_app.Buffer.{memmove_at}

-- `G_io_apdu_buffer` and `G_output_len`; and the messages that went out, the last one first.
pub record Response : Type 0 where
  pub buffer : List ℕ
  pub output_len : ℕ
  pub sent : List (List ℕ)

abbrev pub sw_wrong_response_length : ℕ
sw_wrong_response_length = 0xb000

unfoldable pub io_reset_response : Response → Response
io_reset_response r = record r { output_len = 0 }

-- The end of a response that does not fit.
unfoldable pub too_long : ℕ → Response → Response
too_long size r = record r {
  buffer = write_u16_be r.buffer (size - 2) sw_wrong_response_length;
  output_len = size % 2 ^ 16;
}

unfoldable pub io_finalize_response : ℕ → ℕ → Response → Response
unfolding too_long
io_finalize_response size sw r = if leb (size - 2) r.output_len then too_long size r else record r {
  buffer = write_u16_be r.buffer r.output_len sw;
  output_len = (r.output_len + 2) % 2 ^ 16;
}

-- The first `n` bytes that `rdata` shows are added; `none` if the calls do not end within the fuel.
unfoldable pub io_add_to_response : ℕ → ℕ → List ℕ → ℕ → Response → Option Response
unfolding io_finalize_response too_long
io_add_to_response zero size rdata n r = none
io_add_to_response (suc fuel) size rdata n r =
    let again = io_add_to_response fuel size rdata (sub_size (size - 2) n) r in
    if leb (size - 2) r.output_len
    then some (too_long size r)
    else if ltb (size - 2) (add_size r.output_len n)
    then map (io_finalize_response size sw_wrong_response_length) again
    else some (record r {
      buffer = memmove_at r.buffer r.output_len (take n rdata);
      output_len = (r.output_len + n) % 2 ^ 16;
    })

-- `rdata` is none for NULL.
unfoldable pub io_set_response : ℕ → ℕ → Option (List ℕ) → ℕ → Response → Option Response
unfolding io_reset_response io_add_to_response io_finalize_response
io_set_response fuel size none sw r = some (io_finalize_response size sw (io_reset_response r))
io_set_response fuel size (some rdata) sw r =
    map (io_finalize_response size sw)
      (io_add_to_response fuel size rdata (length rdata) (io_reset_response r))

-- `io_exchange` of the SDK sends the first `G_output_len` bytes of the array.
unfoldable pub io_confirm_response : Response → Response
io_confirm_response r = record r { sent = take r.output_len r.buffer ∷ r.sent; output_len = 0 }

unfoldable pub io_send_response : ℕ → ℕ → Option (List ℕ) → ℕ → Response → Option Response
unfolding io_set_response io_confirm_response
io_send_response fuel size rdata sw r =
    map io_confirm_response (io_set_response fuel size rdata sw r)

-- Without data nothing is added, and nothing can fail.
unfoldable pub io_send_sw : ℕ → ℕ → Response → Response
unfolding io_confirm_response io_finalize_response io_reset_response
io_send_sw size sw r = io_confirm_response (io_finalize_response size sw (io_reset_response r))

-- `G_ticks`, `G_is_timeout_active`, the ticks at which the timeouts were started, and
-- `G_was_processing_screen_shown`.
pub record Timeouts : Type 0 where
  pub ticks : ℕ
  pub interruption : Bool
  pub processing : Bool
  pub interruption_start : ℕ
  pub processing_start : ℕ
  pub was_processing_screen_shown : Bool

unfoldable pub io_start_interruption_timeout : Timeouts → Timeouts
io_start_interruption_timeout t = record t { interruption_start = t.ticks; interruption = true }

unfoldable pub io_clear_interruption_timeout : Timeouts → Timeouts
io_clear_interruption_timeout t = record t { interruption = false }

unfoldable pub io_start_processing_timeout : Timeouts → Timeouts
io_start_processing_timeout t = record t { processing_start = t.ticks; processing = true }

unfoldable pub io_clear_processing_timeout : Timeouts → Timeouts
io_clear_processing_timeout t = record t { processing = false }

unfoldable pub io_reset_timeouts : Timeouts → Timeouts
unfolding io_clear_interruption_timeout io_clear_processing_timeout
io_reset_timeouts t = record (io_clear_processing_timeout (io_clear_interruption_timeout t)) {
  was_processing_screen_shown = false;
}

unfoldable pub io_show_processing_screen : Timeouts → Timeouts
io_show_processing_screen t = record t { was_processing_screen_shown = true }

-- The differences of ticks are of type int and can be negative.
unfoldable pub expired : ℕ → ℕ → ℕ → Bool
expired ticks start limit = leb (start + limit) ticks

abbrev pub interruption_timeout_ticks : ℕ
interruption_timeout_ticks = 50

abbrev pub processing_timeout_ticks : ℕ
processing_timeout_ticks = 10

-- A tick in `io_event`, first the test of the processing timeout, then that of the interruption
-- timeout; the flag says that EXCEPTION_IO_RESET is thrown.
unfoldable pub tick_processing : Timeouts → Timeouts
unfolding expired io_clear_processing_timeout io_show_processing_screen
tick_processing t =
    if t.processing && expired t.ticks t.processing_start processing_timeout_ticks
    then io_show_processing_screen (io_clear_processing_timeout t)
    else t

unfoldable pub tick_interruption : Timeouts → Bool × Timeouts
unfolding expired io_clear_interruption_timeout
tick_interruption t =
    if t.interruption && expired t.ticks t.interruption_start interruption_timeout_ticks
    then (true, io_clear_interruption_timeout t)
    else (false, t)

unfoldable pub io_event_tick : Timeouts → Bool × Timeouts
unfolding tick_processing tick_interruption
io_event_tick t = tick_interruption (tick_processing (record t { ticks = (t.ticks + 1) % 2 ^ 16 }))
