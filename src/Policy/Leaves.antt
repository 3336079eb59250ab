-- ===== src/Policy/Leaves.antt =====
-- The cases without children of `compute_miniscript_policy_ext_info` of src/common/wallet.c.
use ledger_babylon_app.Common.{
  ℕ, ◌+◌, ◌*◌, ◌/◌, ◌%◌, ◌^◌, Bool, true, false, if◌then◌else◌, leb, ◌==◌,
}
use ledger_babylon_app.Script.{get_push_script_size}
use ledger_babylon_app.Policy.{
  MiniscriptContext, miniscript_context_p2wsh, miniscript_context_tapscript,
}
use ledger_babylon_app.Policy.Costs.{ExtInfo, blank, ops_of, ss_of, minus_one, u16}

-- The size of the push of a key: it has 32 bytes in a tapscript, 33 elsewhere.
abbrev pub key_push : MiniscriptContext → ℕ
key_push miniscript_context_p2wsh = 34
key_push miniscript_context_tapscript = 33

unfoldable pub info_0 : ExtInfo
info_0 = record blank {
  s = true;
  e = true;
  script_size = 1;
  ops = ops_of 0 minus_one 0;
  ss = ss_of minus_one 0;
}

unfoldable pub info_1 : ExtInfo
info_1 = record blank {
  f = true;
  script_size = 1;
  ops = ops_of 0 0 minus_one;
  ss = ss_of 0 minus_one;
}

unfoldable pub info_pk_k : MiniscriptContext → ExtInfo
info_pk_k ctx = record blank {
  s = true;
  e = true;
  script_size = key_push ctx;
  ops = ops_of 0 0 0;
  ss = ss_of 1 1;
}

unfoldable pub info_pk_h : ExtInfo
info_pk_h = record blank {
  s = true;
  e = true;
  script_size = 3 + 21;
  ops = ops_of 3 0 0;
  ss = ss_of 2 2;
}

unfoldable pub info_pk : MiniscriptContext → ExtInfo
info_pk ctx = record blank {
  s = true;
  e = true;
  x = false;
  script_size = key_push ctx + 1;
  ops = ops_of 1 0 0;
  ss = ss_of 1 1;
}

unfoldable pub info_pkh : ExtInfo
info_pkh = record blank {
  s = true;
  e = true;
  x = false;
  script_size = 3 + 21 + 1;
  ops = ops_of 4 0 0;
  ss = ss_of 2 2;
}

unfoldable pub info_multi : ℕ → ℕ → ExtInfo
info_multi k n = record blank {
  s = true;
  e = true;
  x = false;
  script_size = u16 (1 + get_push_script_size k + get_push_script_size n + 34 * n);
  ops = ops_of 1 (u16 n) (u16 n);
  ss = ss_of (u16 (k + 1)) (u16 (k + 1));
}

unfoldable pub info_multi_a : ℕ → ℕ → ExtInfo
info_multi_a k n = record blank {
  s = true;
  e = true;
  x = false;
  script_size = u16 (1 + get_push_script_size k + 34 * n);
  ops = ops_of (n + 1) 0 0;
  ss = ss_of (u16 n) (u16 n);
}

-- Bit 22 of the number, SEQUENCE_LOCKTIME_TYPE_FLAG.
abbrev pub is_time_sequence : ℕ → Bool
is_time_sequence n = (n / 2 ^ 22) % 2 == 1

abbrev pub locktime_threshold : ℕ
locktime_threshold = 500000000

unfoldable pub info_older : ℕ → ExtInfo
info_older n =
    let out = record blank {
      f = true;
      script_size = u16 (1 + get_push_script_size n);
      ops = ops_of 1 0 minus_one;
      ss = ss_of 0 minus_one;
    } in
    if is_time_sequence n then record out { g = true } else record out { h = true }

unfoldable pub info_after : ℕ → ExtInfo
info_after n =
    let out = record blank {
      f = true;
      script_size = u16 (1 + get_push_script_size n);
      ops = ops_of 1 0 minus_one;
      ss = ss_of 0 minus_one;
    } in
    if leb locktime_threshold n then record out { i = true } else record out { j = true }

unfoldable pub info_hash : ℕ → ExtInfo
info_hash push = record blank {
  x = false;
  script_size = 4 + 2 + push;
  ops = ops_of 4 0 minus_one;
  ss = ss_of 1 minus_one;
}
