-- ===== src/Dispatcher/Tests.antt =====
-- Commands for an application of two handlers.
use ledger_babylon_app.Common.{ℕ, ◌≡◌, refl, List, [], ◌∷◌, false, true, replicate}
use ledger_babylon_app.Buffer.{buffer_create}
use ledger_babylon_app.Apdu.{Command}
use ledger_babylon_app.Bytes.{write_u16_be}
use ledger_babylon_app.Io.{
  io_send_sw, io_reset_response, io_finalize_response, io_confirm_response, too_long,
  io_start_processing_timeout, io_clear_processing_timeout,
}
use ledger_babylon_app.Dispatcher.{
  State, Handler, CommandDescriptor, lookup, refuse, finish, call, apdu_dispatcher,
  finalize_response, send_response,
}
use ledger_babylon_app.Dispatcher.Answers.{Answers}

-- One handler answers SW_OK, the other one answers nothing.
unfoldable polite : Handler
unfolding finalize_response send_response
polite p2 d = send_response (finalize_response 16 0x9000 d)

abbrev silent : Handler
silent p2 d = d

abbrev app : List CommandDescriptor
app =
    record { cla = 0xe1; ins = 0; handler = polite }
    ∷ record { cla = 0xe1; ins = 2; handler = silent }
    ∷ []

abbrev command : ℕ → ℕ → Command
command cla ins = record { cla = cla; ins = ins; p1 = 0; p2 = 1; lc = 0; bytes = [] }

abbrev idle : State
idle = record {
  sw = 0;
  had_ux_flow = false;
  read_buffer = buffer_create [] 0;
  response = record { buffer = replicate 16 0; output_len = 0; sent = [] };
  timeouts = record {
    ticks = 7;
    interruption = false;
    processing = false;
    interruption_start = 0;
    processing_start = 0;
    was_processing_screen_shown = false;
  };
}

unfoldable answers : Command → List (List ℕ)
unfolding apdu_dispatcher lookup call refuse finish polite finalize_response send_response
    io_send_sw io_reset_response io_finalize_response io_confirm_response too_long write_u16_be
    io_start_processing_timeout io_clear_processing_timeout
answers cmd = (apdu_dispatcher 16 app true cmd idle).response.sent

served : answers (command 0xe1 0) ≡ (0x90 ∷ 0 ∷ []) ∷ []
unfolding answers
served = refl

bad_state : answers (command 0xe1 2) ≡ (0xb0 ∷ 7 ∷ []) ∷ []
unfolding answers
bad_state = refl

no_instruction : answers (command 0xe1 9) ≡ (0x6d ∷ 0 ∷ []) ∷ []
unfolding answers
no_instruction = refl

no_class : answers (command 0xf8 2) ≡ (0x6e ∷ 0 ∷ []) ∷ []
unfolding answers
no_class = refl

unexpected_continuation : answers (command 0xf8 1) ≡ (0xb0 ∷ 7 ∷ []) ∷ []
unfolding answers
unexpected_continuation = refl
