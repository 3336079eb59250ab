-- ===== src/Client/Stream/Ends.antt =====
-- The streaming call ends when the host sends no empty messages: each turn of the loop takes one
-- message, and at least one of the bytes that remain.
use ledger_babylon_app.Common.{
  ℕ, zero, suc, ◌-◌, ◌%◌, ◌^◌, ◌≤◌, ◌<◌, ◌∙◌, arith, List, leb, length, drop, All, bytes_eq, Option,
}
use ledger_babylon_app.Buffer.{Buffer}
use ledger_babylon_app.Merkle.{Sha256}
use ledger_babylon_app.Client.{Dc, guard}
use ledger_babylon_app.Client.Preimage.{more_bytes, preimage_head}
use ledger_babylon_app.Client.Preimage.Ends.{more_bytes-Spends, preimage_head-Spends}
use ledger_babylon_app.Client.Spends.{
  EndsWithin, IsNonempty, Spends, Spends-EndsWithin, Spends-bind, guard-Spends,
}
use ledger_babylon_app.Client.Stream.{stream_loop, call_stream_preimage}

module _ (sha : Sha256) {S : Type 0} (callback : Buffer → S → S) where
  stream_loop-Spends :
      (fuel rest : ℕ) (ctx : sha.Context) (s : S) (dc : Dc) (k : ℕ)
      → length dc.inbox < fuel
      → All IsNonempty dc.inbox
      → k ≤ length dc.inbox - rest
      → Spends (stream_loop sha callback fuel rest ctx s dc) k (λ end d. k ≤ length d.inbox)
  unfolding stream_loop
  stream_loop-Spends zero rest ctx s dc k f full h = absurd (omega arith)
  stream_loop-Spends (suc fuel) zero ctx s dc k f full h = omega arith
  stream_loop-Spends (suc fuel) (suc rest) ctx s dc k f full h =
      Spends-bind (more_bytes 5 (suc rest)) _ dc k _ _
        (more_bytes-Spends 5 (suc rest) dc k (omega arith) full)
        (λ n d (some_bytes, within, one, later).
          stream_loop-Spends fuel (suc rest - n) _ _ d k (omega arith) later (omega arith))

  -- If no message of the host after the first one is empty (announces 0 bytes), then
  -- `call_stream_preimage` ends, with a
  -- result or an error, and takes no more than 2^32 messages, however many the host would send.
  pub stream_preimage_ends :
      (hash : List ℕ) (len_callback : Option (ℕ → S → S)) (s : S) (dc : Dc)
      → All IsNonempty (drop 1 dc.inbox)
      → EndsWithin
          (2 ^ 32)
          (length dc.inbox)
          (call_stream_preimage sha callback hash len_callback s dc)
  unfolding call_stream_preimage
  stream_preimage_ends hash len_callback s dc full =
      let k = length dc.inbox - 2 ^ 32 in
      let fuel = suc (length dc.inbox) in
      Spends-EndsWithin (2 ^ 32) (length dc.inbox)
        (call_stream_preimage sha callback hash len_callback s dc)
        (Spends-bind (preimage_head sha hash) _ dc k _ _
          (preimage_head-Spends sha hash dc k (omega arith))
          (λ head d0 taken.
            let len = head.0 % 2 ^ 32 in
            let short : len < 2 ^ 32 = omega arith in
            let h0 : k ≤ length d0.inbox = omega (arith, taken.0) in
            Spends-bind (guard (leb 1 len) 3) _ d0 k _ _ (guard-Spends 3 d0 k h0 (leb 1 len))
              (λ u d1 p1.
                let h1 : k ≤ length d1.inbox = rw p1.0 h0 in
                Spends-bind (guard (leb head.1 len) 4) _ d1 k _ _
                  (guard-Spends 4 d1 k h1 (leb head.1 len))
                  (λ v d2 p2.
                    let same = p2.0 ∙ p1.0 in
                    Spends-bind (stream_loop sha callback fuel (len - head.1) _ _) _ d2 k _ _
                      (stream_loop-Spends fuel (len - head.1) _ _ d2 k
                        (rw same (omega (arith, taken.0))) (rw (same, taken.1) full)
                        (rw same (omega (arith, taken.0))))
                      (λ end d3 h3.
                        Spends-bind (guard (bytes_eq (sha.digest end.0) hash) 9) _ d3 k _ _
                          (guard-Spends 9 d3 k h3 (bytes_eq (sha.digest end.0) hash))
                          (λ w d4 p4. rw p4.0 h3))))))
