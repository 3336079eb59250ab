-- ===== src/Policy/Joints.antt =====
-- The cases of `compute_miniscript_policy_ext_info` of src/common/wallet.c that join two or three
-- scripts, of the information on these.
use ledger_babylon_app.Common.{◌+◌, Bool, true, not, ◌&&◌, ◌||◌}
use ledger_babylon_app.Policy.Costs.{
  ExtInfo, blank, ops_of, ss_of, minus_one, u16, sumcheck, maxcheck,
}

-- One of two scripts that are both satisfied has a lock of one kind, the other of the other kind.
abbrev pub crossed : ExtInfo → ExtInfo → Bool
crossed x y = (x.g && y.h) || (x.h && y.g) || (x.i && y.j) || (x.j && y.i)

-- The timelock flags of two scripts together.
abbrev pub with_locks : ExtInfo → ExtInfo → ExtInfo → ExtInfo
with_locks x y out = record out { g = x.g || y.g; h = x.h || y.h; i = x.i || y.i; j = x.j || y.j }

unfoldable pub info_andor : ExtInfo → ExtInfo → ExtInfo → ExtInfo
info_andor x y z = record blank {
  s = z.s && (x.s || y.s);
  f = z.f && (x.s || y.f);
  e = z.e && (x.s || y.f);
  m = x.m && y.m && z.m && x.e && (x.s || y.s || z.s);
  g = x.g || y.g || z.g;
  h = x.h || y.h || z.h;
  i = x.i || y.i || z.i;
  j = x.j || y.j || z.j;
  k = not (not (x.k && y.k && z.k) || crossed x y);
  script_size = u16 (3 + x.script_size + y.script_size + z.script_size);
  ops =
      ops_of (3 + x.ops.count + y.ops.count + z.ops.count)
        (maxcheck (sumcheck y.ops.sat x.ops.sat) (sumcheck y.ops.dsat z.ops.sat))
        (sumcheck x.ops.dsat z.ops.dsat);
  ss =
      ss_of (maxcheck (sumcheck x.ss.sat y.ss.sat) (sumcheck x.ss.dsat z.ss.sat))
        (sumcheck x.ss.dsat z.ss.dsat);
}

unfoldable pub info_and_v : ExtInfo → ExtInfo → ExtInfo
info_and_v x y = with_locks x y (record blank {
  s = x.s || y.s;
  f = x.s || y.f;
  m = x.m && y.m;
  k = not (not (x.k && y.k) || crossed x y);
  x = y.x;
  script_size = u16 (x.script_size + y.script_size);
  ops = ops_of (x.ops.count + y.ops.count) (sumcheck x.ops.sat y.ops.sat) minus_one;
  ss = ss_of (sumcheck x.ss.sat y.ss.sat) minus_one;
})

unfoldable pub info_and_b : ExtInfo → ExtInfo → ExtInfo
info_and_b x y = with_locks x y (record blank {
  s = x.s || y.s;
  f = (x.f && y.f) || (x.s && x.f) || (y.s && y.f);
  e = x.e && y.e && x.s && y.s;
  m = x.m && y.m;
  k = not (not (x.k && y.k) || crossed x y);
  script_size = u16 (1 + x.script_size + y.script_size);
  ops =
      ops_of (1 + x.ops.count + y.ops.count) (sumcheck x.ops.sat y.ops.sat)
        (sumcheck x.ops.dsat y.ops.dsat);
  ss = ss_of (sumcheck x.ss.sat y.ss.sat) (sumcheck x.ss.dsat y.ss.dsat);
})

unfoldable pub info_and_n : ExtInfo → ExtInfo → ExtInfo
info_and_n x y = with_locks x y (record blank {
  s = x.s || y.s;
  e = x.s || y.f;
  m = x.m && y.m && x.e && (x.s || y.s);
  k = not (not (x.k && y.k) || crossed x y);
  script_size = u16 (4 + x.script_size + y.script_size);
  ops =
      ops_of (3 + x.ops.count + y.ops.count) (maxcheck (sumcheck y.ops.sat x.ops.sat) y.ops.dsat)
        x.ops.dsat;
  ss = ss_of (sumcheck x.ss.sat y.ss.sat) x.ss.dsat;
})

unfoldable pub info_or_b : ExtInfo → ExtInfo → ExtInfo
info_or_b x z = with_locks x z (record blank {
  s = x.s && z.s;
  e = true;
  m = x.m && z.m && x.e && z.e && (x.s || z.s);
  k = x.k && z.k;
  script_size = u16 (1 + x.script_size + z.script_size);
  ops =
      ops_of (1 + x.ops.count + z.ops.count)
        (maxcheck (sumcheck x.ops.sat z.ops.dsat) (sumcheck z.ops.sat x.ops.dsat))
        (sumcheck x.ops.dsat z.ops.dsat);
  ss =
      ss_of (maxcheck (sumcheck x.ss.dsat z.ss.sat) (sumcheck x.ss.sat z.ss.dsat))
        (sumcheck x.ss.dsat z.ss.dsat);
})

unfoldable pub info_or_c : ExtInfo → ExtInfo → ExtInfo
info_or_c x z = with_locks x z (record blank {
  s = x.s && z.s;
  f = true;
  m = x.m && z.m && x.e && (x.s || z.s);
  k = x.k && z.k;
  script_size = u16 (2 + x.script_size + z.script_size);
  ops =
      ops_of (2 + x.ops.count + z.ops.count) (maxcheck x.ops.sat (sumcheck z.ops.sat x.ops.dsat))
        minus_one;
  ss = ss_of (maxcheck x.ss.sat (sumcheck x.ss.dsat z.ss.sat)) minus_one;
})

unfoldable pub info_or_d : ExtInfo → ExtInfo → ExtInfo
info_or_d x z = with_locks x z (record blank {
  s = x.s && z.s;
  f = z.f;
  e = z.e;
  m = x.m && z.m && x.e && (x.s || z.s);
  k = x.k && z.k;
  script_size = u16 (3 + x.script_size + z.script_size);
  ops =
      ops_of (3 + x.ops.count + z.ops.count) (maxcheck x.ops.sat (sumcheck z.ops.sat x.ops.dsat))
        (sumcheck x.ops.dsat z.ops.dsat);
  ss = ss_of (maxcheck x.ss.sat (sumcheck x.ss.dsat z.ss.sat)) (sumcheck x.ss.dsat z.ss.dsat);
})

unfoldable pub info_or_i : ExtInfo → ExtInfo → ExtInfo
info_or_i x z = with_locks x z (record blank {
  s = x.s && z.s;
  f = x.f && z.f;
  e = (x.e && z.f) || (z.e && x.f);
  m = x.m && z.m && (x.s || z.s);
  k = x.k && z.k;
  script_size = u16 (3 + x.script_size + z.script_size);
  ops =
      ops_of (3 + x.ops.count + z.ops.count) (maxcheck x.ops.sat z.ops.sat)
        (maxcheck x.ops.dsat z.ops.dsat);
  ss =
      ss_of (maxcheck (sumcheck x.ss.sat 1) (sumcheck z.ss.sat 1))
        (maxcheck (sumcheck x.ss.dsat 1) (sumcheck z.ss.dsat 1));
})
