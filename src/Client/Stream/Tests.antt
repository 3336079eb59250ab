-- ===== src/Client/Stream/Tests.antt =====
-- A preimage that is streamed in one message, one that takes two, and one whose first message is empty.
use ledger_babylon_app.Common.{
  ◌^◌, ℕ, ◌+◌, ◌≡◌, refl, arith, List, [], ◌∷◌, ◌++◌, map, length, drop, replicate, some, none,
  bytes_eq,
}
use mathlib.Core.List.{flatten}
use ledger_babylon_app.Buffer.{Buffer, buffer_create}
use ledger_babylon_app.Merkle.Tests.{toy_sha, first_bytes}
use ledger_babylon_app.Client.{
  Dc, Res, ok, interrupt, process_interruption, accept, receive, read_u8, read_varint, can_read,
}
use ledger_babylon_app.Buffer.{buffer_can_read, buffer_read_u8, buffer_read_varint}
use ledger_babylon_app.Varint.{varint_read}
use ledger_babylon_app.Apdu.{apdu_parser}
use ledger_babylon_app.Client.Preimage.{preimage_head, more_bytes}
use ledger_babylon_app.Client.Spends.{EndsWithin}
use ledger_babylon_app.Client.Stream.{announce, stream_loop, call_stream_preimage}
use ledger_babylon_app.Client.Stream.Sound.{contents, feed, stream_preimage_sound}
use ledger_babylon_app.Client.Stream.Ends.{stream_preimage_ends}

abbrev message : List ℕ → List ℕ
message text = 0xf8 ∷ 0x01 ∷ 0 ∷ 0 ∷ (length text ∷ text)

abbrev host : List (List ℕ) → Dc
host texts = record {
  apdu_buffer = replicate 260 0;
  read_buffer = buffer_create [] 0;
  inbox = map message texts;
  sent = [];
}

-- The callbacks keep the length and the bytes that they see.
abbrev collect : Buffer → List ℕ → List ℕ
collect b s = s ++ contents b

abbrev note_length : ℕ → List ℕ → List ℕ
note_length len s = s ++ (len ∷ [])

abbrev preimage : List ℕ
preimage = 0 ∷ 5 ∷ 6 ∷ 7 ∷ []

abbrev two_messages : Dc
two_messages = host ((4 ∷ 2 ∷ 0 ∷ 5 ∷ []) ∷ (2 ∷ 1 ∷ 6 ∷ 7 ∷ []) ∷ [])

abbrev run : Dc → Res (ℕ × List ℕ) × Dc
run = call_stream_preimage toy_sha collect (first_bytes preimage) (some note_length) []

streamed : run two_messages ≡ (ok (3, 3 ∷ 5 ∷ 6 ∷ 7 ∷ []), (run two_messages).1)
unfolding call_stream_preimage stream_loop announce preimage_head more_bytes interrupt
    process_interruption accept receive read_u8 read_varint can_read buffer_can_read buffer_read_u8
    buffer_read_varint varint_read apdu_parser bytes_eq
streamed = refl

abbrev opened : Res (ℕ × ℕ) × Dc
opened = preimage_head toy_sha (first_bytes preimage) two_messages

head_of_two : opened ≡ (ok (4, 2), opened.1)
unfolding preimage_head interrupt process_interruption accept receive read_u8 read_varint can_read
    buffer_can_read buffer_read_u8 buffer_read_varint varint_read apdu_parser
head_of_two = refl

stream_preimage_sound_example :
    (m : List ℕ) × (buffers : List Buffer) × (toy_sha.sha256 m ≡ first_bytes preimage)
    × (length m ≡ 3 + 1)
    × (flatten (map contents buffers) ≡ drop 1 m)
    × (feed collect buffers (announce (some note_length) 3 []) ≡ 3 ∷ 5 ∷ 6 ∷ 7 ∷ [])
stream_preimage_sound_example =
    stream_preimage_sound toy_sha collect (first_bytes preimage) (some note_length) []
      (3 ∷ 5 ∷ 6 ∷ 7 ∷ []) 3 4 2 two_messages opened.1 (run two_messages).1 head_of_two
      (omega arith) streamed

stream_preimage_ends_example : EndsWithin (2 ^ 32) 2 (run two_messages)
stream_preimage_ends_example =
    stream_preimage_ends toy_sha collect (first_bytes preimage) (some note_length) [] two_messages
      (omega arith, tt)

-- The first message announces four bytes and holds none: the first buffer has the size 2^32 - 1.
abbrev sizes : Buffer → List ℕ → List ℕ
sizes b s = s ++ (b.size ∷ [])

empty_first_message :
    (call_stream_preimage toy_sha sizes
      (first_bytes preimage)
      none
      []
      (host ((4 ∷ 0 ∷ []) ∷ (4 ∷ 1 ∷ preimage) ∷ []))).0
    ≡ ok (3, 0xffffffff ∷ 4 ∷ [])
unfolding call_stream_preimage stream_loop announce preimage_head more_bytes interrupt
    process_interruption accept receive read_u8 read_varint can_read buffer_can_read buffer_read_u8
    buffer_read_varint varint_read apdu_parser bytes_eq
empty_first_message = refl
