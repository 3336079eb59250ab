-- ===== src/Apdu.antt =====
-- src/boilerplate/apdu_parser.c: the fields of a command APDU.
pub mod Bounds
mod Tests
use ledger_babylon_app.Common.{
  ℕ, ◌-◌, List, [], Option, none, some, if◌then◌else◌, ltb, ◌==◌, not, ◌||◌, drop,
}
use ledger_babylon_app.Bytes.{byte_at}

-- `command_t`; `data` is the array that the pointer shows, empty for NULL.
pub record Command : Type 0 where
  pub cla : ℕ
  pub ins : ℕ
  pub p1 : ℕ
  pub p2 : ℕ
  pub lc : ℕ
  pub bytes : List ℕ

abbrev pub offset_cdata : ℕ
offset_cdata = 5

unfoldable pub apdu_parser : List ℕ → ℕ → Option Command
apdu_parser buf buf_len =
    if ltb buf_len offset_cdata || not (buf_len - offset_cdata == byte_at buf 4)
    then none
    else some (record {
      cla = byte_at buf 0;
      ins = byte_at buf 1;
      p1 = byte_at buf 2;
      p2 = byte_at buf 3;
      lc = byte_at buf 4;
      bytes = if ltb 0 (byte_at buf 4) then drop offset_cdata buf else [];
    })
