-- ===== src/Protocol/Examples.antt =====
-- Runs of the protocol layer on small inputs.
use mathlib.Core.List.{flatten}
use server_core.Base.{
  ℕ, ◌+◌, ◌-◌, ◌^◌, ◌≤◌, ◌<◌, ◌≡◌, refl, ◌⊎◌, Bool, true, false, Option, none, some, List, [], ◌∷◌,
  ◌++◌, arith, All, foldl, length, drop, if◌then◌else◌, ltb,
}
use server_core.Core.Error.{ErrorCode, value, failed, is_ok}
use server_core.Protocol.FrameCodec.{
  Error, no_error, Reader, header_size, size_max, is_none, encode_to, EncodeResult,
}
use server_core.Protocol.FrameCodec
use server_core.Protocol.FrameCodec.Stream.{parse, cut, incomplete}
use server_core.Protocol.FrameCodec.Chunks.{wires}
use server_core.Protocol.FrameCodec.Pump.{IsReady, unread}
use server_core.Protocol.FrameCodec.Loop.{Appended}
use server_core.Protocol.FrameCodec.Reading.{append-Appended}
use server_core.Protocol.FrameCodec.RoundTrip.{receive, Received, receive-Received, receive-wires}
use server_core.Protocol.Framing.{FrameReader, append, finish, encode_frame}
use server_core.Protocol.Framing
use server_core.Protocol.Framing.Sound.{IsSound}
use server_core.Protocol.Framing.Offers.{not_admitted, offer}
use server_core.Protocol.Framing.Answers.{offered, Answered, append-Answered}
use server_core.Protocol.Framing.Ending.{Delivered}
use server_core.Protocol.Framing.Lifecycle.{
  Call, appends, takes, discards, run, run-IsSound, run_rejected,
}
use server_core.Protocol.BinaryIo.{BinaryReader, BinaryWriter, big_endian, little_endian}
use server_core.Protocol.BinaryIo.Items.{
  Item, unsigned, boolean, raw, prefixed, utf8, prefixed_kind, kinds, encoding, read_item,
  read_items, write_item, write_items,
}
use server_core.Protocol.BinaryIo.Positions.{Moved, Grown, read_item-Moved, write_item-Grown}
use server_core.Protocol.BinaryIo.RoundTrip.{read_items-write_items}
use server_core.Protocol.BinaryIo.Negotiation.{
  ProtocolOffer, negotiate_protocol, Unsuited, IsFirst, negotiate_protocol-IsFirst,
}

abbrev collect : List (List ℕ) → List ℕ → List (List ℕ)
collect bodies body = bodies ++ body ∷ []

-- Three of the four length bytes have come.
abbrev half_reader : Reader
half_reader = record {
  storage = 2 ∷ 0 ∷ 0 ∷ 0 ∷ 0 ∷ 0 ∷ [];
  max_body_size = 2;
  start = 0;
  end = 3;
  terminal_error = no_error;
  invoking_callback = false;
}

half_reader-IsReady : IsReady half_reader
half_reader-IsReady = record {
  ordered = omega arith;
  inside = omega arith;
  roomy = omega arith;
  idle = refl;
}

-- The end of the first frame and a frame that is too large.
abbrev late_bytes : List ℕ
late_bytes = 0 ∷ 7 ∷ 8 ∷ 9 ∷ 0 ∷ 0 ∷ 0 ∷ 1 ∷ []

append-Appended_example :
    Appended collect half_reader [] late_bytes 0
      (parse 2 (unread half_reader ++ late_bytes))
      (FrameCodec.append (some collect) half_reader [] late_bytes)
append-Appended_example = append-Appended collect half_reader [] late_bytes half_reader-IsReady refl

append-delivers : (FrameCodec.append (some collect) half_reader [] late_bytes).2 ≡ (7 ∷ 8 ∷ []) ∷ []
unfolding FrameCodec.append FrameCodec.append_loop FrameCodec.pump FrameCodec.copy_in
    server_core.Base.Store.overwrite FrameCodec.compact_unread_bytes
append-delivers = refl

abbrev late_chunks : List (List ℕ)
late_chunks = (0 ∷ 7 ∷ []) ∷ (8 ∷ 1 ∷ []) ∷ []

half_reader-incomplete : cut 2 (unread half_reader) ≡ incomplete
unfolding cut
half_reader-incomplete = refl

receive-Received_example :
    Received collect []
      (parse 2 (unread half_reader ++ flatten late_chunks))
      (receive collect half_reader [] late_chunks)
receive-Received_example =
    receive-Received collect late_chunks half_reader [] 2 half_reader-IsReady refl refl
      half_reader-incomplete

abbrev two_bodies : List (List ℕ)
two_bodies = (5 ∷ 6 ∷ []) ∷ [] ∷ []

abbrev two_chunks : List (List ℕ)
two_chunks = (2 ∷ 0 ∷ 0 ∷ []) ∷ (0 ∷ 5 ∷ 6 ∷ 0 ∷ []) ∷ (0 ∷ 0 ∷ 0 ∷ []) ∷ []

abbrev small_store : List ℕ
small_store = 0 ∷ 0 ∷ 0 ∷ 0 ∷ 0 ∷ 0 ∷ []

two_chunks-sent : flatten two_chunks ≡ wires two_bodies
unfolding flatten wires FrameCodec.header
two_chunks-sent = refl

receive-wires_example :
    ((receive collect (FrameCodec.create small_store 2) [] two_chunks).1
      ≡ foldl collect [] two_bodies)
    × ((receive collect (FrameCodec.create small_store 2) [] two_chunks).0.terminal_error
        ≡ no_error)
    × (unread (receive collect (FrameCodec.create small_store 2) [] two_chunks).0 ≡ [])
receive-wires_example =
    receive-wires collect small_store 2 [] two_bodies two_chunks (omega arith) (omega arith)
      (omega arith, (omega arith, tt)) two_chunks-sent

abbrev old_output : List ℕ
old_output = 1 ∷ 1 ∷ 1 ∷ 1 ∷ 1 ∷ 1 ∷ 1 ∷ []

encode_to-refused : is_none (encode_to (5 ∷ 6 ∷ []) (1 ∷ []) 2).0.error ≡ false
unfolding encode_to
encode_to-refused = refl

-- A caller that lets in `budget` bytes, and an allocator that grants all.
abbrev admit : ℕ → ℕ → Bool × ℕ
admit budget size = if ltb budget size then (false, budget) else (true, budget - size)

abbrev grant : ℕ → ℕ → Bool × ℕ
grant budget size = (true, budget)

abbrev idle_reader : FrameReader
idle_reader = Framing.create 2

idle_reader-IsSound : IsSound idle_reader
idle_reader-IsSound = record {
  counted = record { exact = refl; bounded = omega arith };
  fitted = tt;
  addressable = omega arith;
}

-- The second body finds no budget.
abbrev greedy : List ℕ
greedy = wires ((5 ∷ 6 ∷ []) ∷ (7 ∷ []) ∷ (8 ∷ []) ∷ [])

append-Answered_example :
    Delivered idle_reader
      (parse 2 greedy)
      (append grant (some admit) idle_reader 2 greedy).0
      (append grant (some admit) idle_reader 2 greedy).1
    × Answered grant
        (some admit)
        idle_reader
        2
        greedy
        (append grant (some admit) idle_reader 2 greedy)
append-Answered_example =
    append-Answered grant (some admit) idle_reader 2 greedy idle_reader-IsSound

greedy_refused : (offered grant (some admit) idle_reader 2 greedy).1 ≡ not_admitted
unfolding offer parse wires FrameCodec.header cut FrameCodec.read_length
greedy_refused = refl

abbrev some_calls : List (Call ℕ)
some_calls =
    appends (some admit) (2 ∷ 0 ∷ 0 ∷ 0 ∷ 5 ∷ [])
    ∷ takes
    ∷ appends none (6 ∷ [])
    ∷ takes
    ∷ discards
    ∷ []

run-IsSound_example : IsSound (run grant idle_reader 5 some_calls).0
run-IsSound_example = run-IsSound grant idle_reader 5 some_calls idle_reader-IsSound

run_rejected_example :
    let first = append grant (some admit) idle_reader 2 greedy in
    let out = run grant first.1 first.2 some_calls in
    (first.0 ≡ ErrorCode.too_large)
    × (append grant none out.0 out.1 (1 ∷ []) ≡ (ErrorCode.too_large, out.0, out.1))
    × (finish out.0 ≡ ErrorCode.too_large)
run_rejected_example =
    run_rejected grant idle_reader 2 (some admit) greedy some_calls none (1 ∷ [])
      idle_reader-IsSound refl greedy_refused (refl, (refl, (refl, (refl, (refl, tt)))))

two_bodies-accepted : (append grant none idle_reader 5 (wires two_bodies)).0 ≡ ErrorCode.ok
unfolding append Framing.ensure_reader FrameCodec.finish FrameCodec.create Framing.append_prepared
    FrameCodec.append FrameCodec.append_loop FrameCodec.pump wires FrameCodec.header
    FrameCodec.copy_in server_core.Base.Store.overwrite FrameCodec.compact_unread_bytes
    Framing.copy_completed_frame
two_bodies-accepted = refl

abbrev some_items : List Item
some_items =
    unsigned 2 1000
    ∷ boolean true
    ∷ prefixed 10 (7 ∷ 8 ∷ [])
    ∷ utf8 10 (0x41 ∷ [])
    ∷ raw (9 ∷ [])
    ∷ []

abbrev always : ℕ → Bool
always size = true

abbrev fresh_writer : BinaryWriter
fresh_writer = record { bytes = []; limit = 64; order = little_endian }

some_items-written : is_ok (write_items always fresh_writer some_items).0 ≡ true
unfolding write_items write_item server_core.Protocol.BinaryIo.write_unsigned
    server_core.Protocol.BinaryIo.append server_core.Protocol.BinaryIo.store_from
    server_core.Protocol.BinaryIo.write_bool server_core.Protocol.BinaryIo.write_length_prefixed
    server_core.Protocol.BinaryIo.write_utf8 server_core.Core.Utf8.is_valid_utf8
    server_core.Protocol.BinaryIo.write_bytes
some_items-written = refl

abbrev some_bytes : List ℕ
some_bytes = (write_items always fresh_writer some_items).1.bytes

read_items-write_items_example :
    read_items
      (record { input = some_bytes ++ 3 ∷ []; order = little_endian; position = 0 })
      (kinds some_items)
    ≡ (
      value some_items,
      record { input = some_bytes ++ 3 ∷ []; order = little_endian; position = length some_bytes },
    )
read_items-write_items_example =
    read_items-write_items always 64 little_endian some_items (3 ∷ [])
      (
        omega arith,
        (tt, ((omega arith, (omega arith, tt)), ((omega arith, tt), ((omega arith, tt), tt)))),
      )
      (omega arith, tt) some_items-written

-- A length that reaches beyond the input.
abbrev short_reader : BinaryReader
short_reader = record { input = 0 ∷ 0 ∷ 0 ∷ 9 ∷ 1 ∷ []; order = big_endian; position = 0 }

read_item-Moved_example :
    Moved short_reader (prefixed_kind 20) (read_item short_reader (prefixed_kind 20))
read_item-Moved_example = read_item-Moved short_reader (omega arith) (prefixed_kind 20)

write_item-Grown_example :
    Grown fresh_writer
      (encoding little_endian (utf8 10 (0xFF ∷ [])))
      (write_item always fresh_writer (utf8 10 (0xFF ∷ [])))
write_item-Grown_example = write_item-Grown always fresh_writer (omega arith) (utf8 10 (0xFF ∷ []))

abbrev server_offers : List ProtocolOffer
server_offers = record { version = 2; features = 6 } ∷ record { version = 1; features = 3 } ∷ []

abbrev peer_offers : List ProtocolOffer
peer_offers = record { version = 1; features = 7 } ∷ record { version = 2; features = 1 } ∷ []

negotiate_protocol-IsFirst_example :
    ((negotiate_protocol server_offers peer_offers 1 ≡ failed ErrorCode.unimplemented)
      × All (Unsuited 1 peer_offers) server_offers)
    ⊎ ((offer : ProtocolOffer) × (negotiate_protocol server_offers peer_offers 1 ≡ value offer)
        × IsFirst 1 server_offers peer_offers offer)
negotiate_protocol-IsFirst_example =
    negotiate_protocol-IsFirst 1 server_offers peer_offers refl refl

negotiated :
    negotiate_protocol server_offers peer_offers 1 ≡ value (record { version = 1; features = 3 })
unfolding negotiate_protocol server_core.Protocol.BinaryIo.Negotiation.match_local
    server_core.Protocol.BinaryIo.Negotiation.match_remote
negotiated = refl
