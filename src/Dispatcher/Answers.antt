-- ===== src/Dispatcher/Answers.antt =====
-- What becomes of a command, and that it gets an answer.
use ledger_babylon_app.Common.{
  ℕ, ◌<◌, ◌⊎◌, if◌then◌else◌, ◌≤◌, ◌≡◌, ◌≢◌, List, ◌∷◌, ◌++◌, false, All, length, ◌==◌,
}
use ledger_babylon_app.Buffer.{buffer_create}
use ledger_babylon_app.Apdu.{Command}
use ledger_babylon_app.Io.{Response, io_send_sw, io_start_processing_timeout}
use ledger_babylon_app.Dispatcher.Choice.{IsMatch}
use ledger_babylon_app.Dispatcher.{State, Handler, CommandDescriptor}

-- How many messages went out.
abbrev pub messages : State → ℕ
messages d = length d.response.sent

-- What the dispatcher relies on: a handler that starts without a status word takes no message back, and
-- if it leaves a status word, it has sent a message.
abbrev pub Answers : Handler → Type 0
Answers h =
    (p2 : ℕ) (d : State)
    → d.sw ≡ 0
    → (messages d ≤ messages (h p2 d)) × ((h p2 d).sw ≢ 0 → messages d < messages (h p2 d))

-- The state in which a handler is called.
abbrev pub started : Command → State → State
started cmd d = record d {
  sw = 0;
  had_ux_flow = false;
  read_buffer = buffer_create cmd.bytes cmd.lc;
  timeouts = io_start_processing_timeout d.timeouts;
}

-- The response that a handler leaves, or SW_BAD_STATE if it leaves no status word.
abbrev pub answer : ℕ → State → Response
answer size d = if d.sw == 0 then io_send_sw size 0xb007 d.response else d.response

-- What is done with a command that is to be looked up: refused, with SW_CLA_NOT_SUPPORTED if no
-- descriptor has its class and SW_INS_NOT_SUPPORTED if some have it, none with the instruction; or
-- given to the handler of the first descriptor with both.
abbrev pub IsServed : ℕ → List CommandDescriptor → Command → State → Response → Type 0
IsServed size ds cmd d r =
    (All (λ e. e.cla ≢ cmd.cla) ds × (r ≡ io_send_sw size 0x6e00 d.response))
    ⊎ (((¬ All (λ e. e.cla ≢ cmd.cla) ds)
          × All (λ e. ¬ IsMatch cmd e) ds
          × (r ≡ io_send_sw size 0x6d00 d.response))
        ⊎ ((before : List CommandDescriptor) × (e : CommandDescriptor) × (rest : List
              CommandDescriptor)
            × (ds ≡ before ++ (e ∷ rest))
            × IsMatch cmd e
            × All (λ e'. ¬ IsMatch cmd e') before
            × (r ≡ answer size (e.handler cmd.p2 (started cmd d)))))

-- CLA_FRAMEWORK with INS_CONTINUE.
abbrev pub IsContinue : Command → Type 0
IsContinue cmd = (cmd.cla ≡ 0xf8) × (cmd.ins ≡ 0x01)
