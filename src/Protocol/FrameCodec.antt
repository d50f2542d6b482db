-- ===== src/Protocol/FrameCodec.antt =====
-- include/ServerCore/Protocol/FrameCodec.h: frames with a four-byte little-endian length, cut from a
-- TCP byte stream in a store that the caller gives. `size_t` has 64 bits. The callback is a function
-- on the caller's context: by its contract it neither throws nor calls the reader again.
pub mod Length
pub mod Stream
pub mod Chunks
pub mod Pump
pub mod Room
pub mod Loop
pub mod Reading
pub mod RoundTrip
use server_core.Base.{
  ℕ, zero, suc, ◌+◌, ◌-◌, ◌*◌, ◌/◌, ◌%◌, ◌^◌, Bool, true, false, Option, none, some, List, [], ◌∷◌,
  ◌++◌, ltb, leb, ◌==◌, if◌then◌else◌, length, take, drop, get_or, bit_and, bit_or, ◌||◌, not, ◌&&◌,
}
use server_core.Base.Store.{overwrite, range}

abbrev pub header_size : ℕ
header_size = 4

abbrev pub size_max : ℕ
size_max = 2 ^ 64 - 1

pub data Error : Type 0 where
  no_error would_block too_large invalid_format invalid_argument insufficient_storage : Error

abbrev pub is_none : Error → Bool
is_none no_error = true
is_none _ = false

pub record Reader : Type 0 where
  pub storage : List ℕ
  pub max_body_size : ℕ
  pub start : ℕ
  pub end : ℕ
  pub terminal_error : Error
  pub invoking_callback : Bool

unfoldable pub required_storage_size : ℕ → ℕ
required_storage_size max_body_size =
    if ltb (size_max - header_size) max_body_size then 0 else header_size + max_body_size

-- The constructor.
unfoldable pub create : List ℕ → ℕ → Reader
unfolding required_storage_size
create storage max_body_size =
    let required = required_storage_size max_body_size in
    record {
      storage = storage;
      max_body_size = max_body_size;
      start = 0;
      end = 0;
      terminal_error =
          if required == 0 || ltb (length storage) required then insufficient_storage else no_error;
      invoking_callback = false;
    }

-- A byte moved to its place in a `uint32_t`.
abbrev pub byte_at : ℕ → ℕ → ℕ
byte_at byte shift = byte * 2 ^ shift % 2 ^ 32

-- Four bytes as a little-endian number.
unfoldable pub join : ℕ → ℕ → ℕ → ℕ → ℕ
join b0 b1 b2 b3 = bit_or (bit_or (bit_or b0 (byte_at b1 8)) (byte_at b2 16)) (byte_at b3 24)

-- The length field at the head of the unread bytes.
unfoldable pub read_length : List ℕ → ℕ
unfolding join
read_length bytes = join (get_or bytes 0 0) (get_or bytes 1 0) (get_or bytes 2 0) (get_or bytes 3 0)

module _ {ℓ} {S : Type ℓ} (callback : S → List ℕ → S) where
  -- `PumpCompletedFrames`. Each round takes a header at least, so `end - start` rounds are enough.
  unfoldable pub pump : ℕ → Reader → S → Error × Reader × S
  unfolding read_length
  pump zero r context = (no_error, r, context)
  pump (suc fuel) r context =
      let unread = drop r.start r.storage in
      let body_length = read_length unread in
      let frame_size = header_size + body_length in
      let done = callback context (take body_length (drop header_size unread)) in
      let next = record r { start = r.start + frame_size; invoking_callback = false } in
      let rest = pump fuel next done in
      if ltb (r.end - r.start) header_size
      then (no_error, r, context)
      else if ltb r.max_body_size body_length
      then (too_large, record r { terminal_error = too_large }, context)
      else if ltb (r.end - r.start) frame_size
      then (no_error, r, context)
      else if not (is_none r.terminal_error)
      then (r.terminal_error, r, done)
      else rest

-- `CompactUnreadBytes`
unfoldable pub compact_unread_bytes : Reader → Reader
compact_unread_bytes r =
    let unread = r.end - r.start in
    let moved =
      if unread == 0 then r.storage else overwrite r.storage 0 (range r.start r.end r.storage) in
    if r.start == 0 then r else record r { storage = moved; start = 0; end = unread }

pub record AppendResult : Type 0 where
  pub error : Error
  pub consumed : ℕ

-- The `memcpy` of `Append`.
unfoldable pub copy_in : Reader → List ℕ → Reader
copy_in r bytes = record r { storage = overwrite r.storage r.end bytes; end = r.end + length bytes }

-- How many bytes the next copy takes.
abbrev pub copy_count : Reader → List ℕ → ℕ
copy_count r bytes =
    if ltb (length r.storage - r.end) (length bytes) then length r.storage - r.end else length bytes

abbrev pub is_full : Reader → Bool
is_full r = r.end == length r.storage

module _ {ℓ} {S : Type ℓ} (callback : S → List ℕ → S) where
  -- The loop of `Append`. Each round but the last copies a byte at least.
  unfoldable pub append_loop : ℕ → Reader → S → List ℕ → ℕ → AppendResult × Reader × S
  append_loop zero r context bytes consumed =
      (record { error = invalid_format; consumed = consumed }, r, context)
  append_loop (suc fuel) r context bytes consumed =
      let (pumped, r1, context1) = pump callback (suc (r.end - r.start)) r context in
      let r2 = if is_full r1 then compact_unread_bytes r1 else r1 in
      let count = copy_count r2 bytes in
      let rest =
        append_loop fuel (copy_in r2 (take count bytes)) context1 (drop count bytes)
          (consumed + count) in
      if not (is_none pumped)
      then (record { error = pumped; consumed = consumed }, r1, context1)
      else if length bytes == 0
      then (record { error = no_error; consumed = consumed }, r1, context1)
      else if is_full r2
      then (
        record { error = invalid_format; consumed = consumed },
        record r2 { terminal_error = invalid_format },
        context1,
      )
      else rest

-- `Reader::Append`; `none` is a null callback.
unfoldable pub append {ℓ} :
    {S : Type ℓ} → Option (S → List ℕ → S) → Reader → S → List ℕ → AppendResult × Reader × S
append none r context bytes =
    if not (is_none r.terminal_error)
    then (record { error = r.terminal_error; consumed = 0 }, r, context)
    else (record { error = invalid_argument; consumed = 0 }, r, context)
append (some callback) r context bytes =
    if not (is_none r.terminal_error)
    then (record { error = r.terminal_error; consumed = 0 }, r, context)
    else if r.invoking_callback
    then (
      record { error = invalid_format; consumed = 0 },
      record r { terminal_error = invalid_format },
      context,
    )
    else append_loop callback (suc (length bytes)) r context bytes 0

unfoldable pub finish : Reader → Error
finish r =
    if not (is_none r.terminal_error)
    then r.terminal_error
    else if r.start == r.end
    then no_error
    else invalid_format

unfoldable pub has_incomplete_frame : Reader → Bool
has_incomplete_frame r = not (r.start == r.end)

pub record EncodeResult : Type 0 where
  pub error : Error
  pub required : ℕ
  pub written : ℕ

-- The four bytes of a length.
unfoldable pub header : ℕ → List ℕ
header length =
    bit_and length 0xFF
    ∷ bit_and (length / 2 ^ 8) 0xFF
    ∷ bit_and (length / 2 ^ 16) 0xFF
    ∷ bit_and (length / 2 ^ 24) 0xFF
    ∷ []

-- `EncodeTo`: the result and what `output` holds afterwards. The body is a value here, so that
-- a body inside `output` is what it was before the call, as the `memmove` keeps it.
unfoldable pub encode_to : List ℕ → List ℕ → ℕ → EncodeResult × List ℕ
unfolding header
encode_to body output max_body_size =
    let required = header_size + length body in
    if ltb max_body_size (length body)
    then (record { error = too_large; required = 0; written = 0 }, output)
    else if ltb (size_max - header_size) (length body)
    then (record { error = too_large; required = 0; written = 0 }, output)
    else if ltb (length output) required
    then (record { error = insufficient_storage; required = required; written = 0 }, output)
    else (
      record { error = no_error; required = required; written = required },
      overwrite (overwrite output header_size body) 0 (header (length body % 2 ^ 32)),
    )
