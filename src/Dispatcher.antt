-- ===== src/Dispatcher.antt =====
-- `apdu_dispatcher` of src/boilerplate/dispatcher.c: the choice of the handler of a command, and what
-- the dispatcher does before and after it. A handler is a function on the state.
pub mod Choice
pub mod Answers
mod Tests
use ledger_babylon_app.Common.{
  ℕ, ◌≡◌, List, [], ◌∷◌, Bool, true, false, ◌&&◌, ◌||◌, not, if◌then◌else◌, ltb, ◌==◌,
}
use ledger_babylon_app.Buffer.{Buffer, buffer_create}
use ledger_babylon_app.Apdu.{Command}
use ledger_babylon_app.Io.{
  Response, Timeouts, io_send_sw, io_finalize_response, io_confirm_response,
  io_start_processing_timeout, io_clear_processing_timeout,
}

-- `G_dispatcher_state` without the termination callback, the buffer of `G_dispatcher_context`, and the
-- state of io.c.
pub record State : Type 0 where
  pub sw : ℕ
  pub had_ux_flow : Bool
  pub read_buffer : Buffer
  pub response : Response
  pub timeouts : Timeouts

abbrev pub Handler : Type 0
Handler = ℕ → State → State

pub record CommandDescriptor : Type 0 where
  pub cla : ℕ
  pub ins : ℕ
  pub handler : Handler

-- The functions that the context offers to the handlers.
unfoldable pub finalize_response : ℕ → ℕ → State → State
finalize_response size sw d = record d {
  sw = sw;
  response = io_finalize_response size sw d.response;
}

unfoldable pub send_response : State → State
send_response d = record d { response = io_confirm_response d.response }

unfoldable pub set_ui_dirty : State → State
set_ui_dirty d = record d { had_ux_flow = true }

-- `io_send_sw` does not touch the status word that the dispatcher keeps.
unfoldable pub refuse : ℕ → ℕ → State → State
refuse size sw d = record d { response = io_send_sw size sw d.response }

-- The result of the loop over the descriptors.
pub data Lookup : Type 0 where
  no_cla : Lookup
  no_ins : Lookup
  found : Handler → Lookup

-- The flag is `cla_found`.
unfoldable pub lookup : List CommandDescriptor → Command → Bool → Lookup
lookup [] cmd cla_found = if cla_found then no_ins else no_cla
lookup (e ∷ es) cmd cla_found =
    let rest = lookup es cmd cla_found in
    let rest_found = lookup es cmd true in
    if e.cla == cmd.cla then if e.ins == cmd.ins then found e.handler else rest_found else rest

-- What follows a handler: an answer, if it left none, and the timeout and the flag of the screen
-- cleared. `callback` says whether there is a termination callback.
unfoldable pub finish : ℕ → Bool → State → State
unfolding refuse io_clear_processing_timeout
finish size callback d =
    let answered = if d.sw == 0 then refuse size 0xb007 d else d in
    let is_ux_dirty = d.had_ux_flow || d.timeouts.was_processing_screen_shown in
    let t = d.timeouts in
    let shown = not (callback && is_ux_dirty) && t.was_processing_screen_shown in
    record answered {
      timeouts = io_clear_processing_timeout (record t { was_processing_screen_shown = shown });
    }

unfoldable pub call : ℕ → Bool → ℕ → Lookup → State → State
unfolding refuse finish io_start_processing_timeout
call size callback p2 no_cla d = refuse size 0x6e00 d
call size callback p2 no_ins d = refuse size 0x6d00 d
call size callback p2 (found handler) d =
    finish size callback
      (handler p2 (record d { timeouts = io_start_processing_timeout d.timeouts }))

abbrev pub current_protocol_version : ℕ
current_protocol_version = 1

unfoldable pub apdu_dispatcher : ℕ → List CommandDescriptor → Bool → Command → State → State
unfolding refuse call lookup
apdu_dispatcher size descriptors callback cmd d =
    let d' = record d {
      sw = 0;
      had_ux_flow = false;
      read_buffer = buffer_create cmd.bytes cmd.lc;
    } in
    if ltb current_protocol_version cmd.p2
    then refuse size 0x6a86 d'
    else if cmd.cla == 0xf8 && cmd.ins == 0x01
    then refuse size 0xb007 d'
    else call size callback cmd.p2 (lookup descriptors cmd false) d'
