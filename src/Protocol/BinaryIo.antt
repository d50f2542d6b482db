-- ===== src/Protocol/BinaryIo.antt =====
-- src/Protocol/BinaryIO.cpp: a reader over borrowed bytes and a builder of bytes, with integers of
-- 1, 2, 4 or 8 bytes in either order. A length is a `uint32_t` in that order.
pub mod Digits
pub mod Items
pub mod Positions
pub mod Values
pub mod RoundTrip
pub mod Negotiation
use server_core.Base.{
  ℕ, zero, suc, ◌+◌, ◌-◌, ◌*◌, ◌/◌, ◌%◌, ◌^◌, Bool, true, false, List, [], ◌∷◌, ◌++◌, ltb, leb,
  ◌==◌, ◌||◌, ◌&&◌, not, if◌then◌else◌, length, take, drop, get_or, bit_and, bit_or,
}
use server_core.Core.Error.{ErrorCode, Status, is_ok, allocation_failure, Result, value, failed}
use server_core.Core.Utf8.{is_valid_utf8}

pub data ByteOrder : Type 0 where
  big_endian little_endian : ByteOrder

abbrev pub maximum_binary_buffer : ℕ
maximum_binary_buffer = 64 * 1024 * 1024

-- `Width`
abbrev pub is_width : ℕ → Bool
is_width width = width == 1 || width == 2 || width == 4 || width == 8

-- By how many bits the byte at `i` is shifted.
abbrev pub shift_of : ByteOrder → ℕ → ℕ → ℕ
shift_of big_endian width i = 8 * (width - i - 1)
shift_of little_endian width i = 8 * i

-- The loop of `Store`, with `count` bytes to go.
unfoldable pub store_from : ByteOrder → ℕ → ℕ → ℕ → ℕ → List ℕ
store_from order number width i zero = []
store_from order number width i (suc count) =
    bit_and (number / 2 ^ shift_of order width i) 255 ∷ store_from order number width (i + 1) count

abbrev pub store : ByteOrder → ℕ → ℕ → List ℕ
store order number width = store_from order number width 0 width

pub record BinaryReader : Type 0 where
  pub input : List ℕ
  pub order : ByteOrder
  pub position : ℕ

abbrev pub remaining : BinaryReader → ℕ
remaining r = length r.input - r.position

-- `BinaryReader::Create`
unfoldable pub create_reader : List ℕ → ByteOrder → ℕ → Result BinaryReader
create_reader input order maximum_bytes =
    if maximum_bytes == 0 || ltb maximum_binary_buffer maximum_bytes
    then failed ErrorCode.invalid_argument
    else if ltb maximum_bytes (length input)
    then failed ErrorCode.too_large
    else value (record { input = input; order = order; position = 0 })

-- The loop of `ReadUnsigned`, with `count` bytes to go.
unfoldable pub load_from : ByteOrder → List ℕ → ℕ → ℕ → ℕ → ℕ → ℕ
load_from order bytes acc width i zero = acc
load_from order bytes acc width i (suc count) =
    load_from order bytes (bit_or acc (get_or bytes i 0 * 2 ^ shift_of order width i % 2 ^ 64))
      width (i + 1) count

unfoldable pub read_unsigned : BinaryReader → ℕ → Result ℕ × BinaryReader
read_unsigned r width =
    if not (is_width width)
    then (failed ErrorCode.invalid_argument, r)
    else if ltb (remaining r) width
    then (failed ErrorCode.invalid_format, r)
    else (
      value (load_from r.order (drop r.position r.input) 0 width 0 width),
      record r { position = r.position + width },
    )

-- A float is its bits.
abbrev pub read_float32 : BinaryReader → Result ℕ × BinaryReader
read_float32 r = read_unsigned r 4

abbrev pub read_float64 : BinaryReader → Result ℕ × BinaryReader
read_float64 r = read_unsigned r 8

unfoldable pub read_bool : BinaryReader → Result Bool × BinaryReader
read_bool r =
    let byte = get_or (drop r.position r.input) 0 0 in
    if remaining r == 0 || ltb 1 byte
    then (failed ErrorCode.invalid_format, r)
    else (value (byte == 1), record r { position = r.position + 1 })

unfoldable pub read_bytes : BinaryReader → ℕ → Result (List ℕ) × BinaryReader
read_bytes r size =
    if ltb (remaining r) size
    then (failed ErrorCode.invalid_format, r)
    else (value (take size (drop r.position r.input)), record r { position = r.position + size })

-- A further read on a copy of the reader, unless the first failed: then the reader is unchanged.
abbrev pub attempt :
    {A B : Type 0}
    → BinaryReader
    → Result A × BinaryReader
    → (A → BinaryReader → Result B × BinaryReader)
    → Result B × BinaryReader
attempt r (value a, saved) f = f a saved
attempt r (failed code, saved) f = (failed code, r)

-- `*this` is written only when the bytes were read.
unfoldable pub read_length_prefixed : BinaryReader → ℕ → Result (List ℕ) × BinaryReader
read_length_prefixed r maximum_length = attempt r (read_unsigned r 4) λ size saved.
    if ltb maximum_length size
    then (failed ErrorCode.too_large, r)
    else attempt r (read_bytes saved size) λ bytes saved1. (value bytes, saved1)

unfoldable pub read_utf8 : BinaryReader → ℕ → Result (List ℕ) × BinaryReader
read_utf8 r maximum_length = attempt r (read_length_prefixed r maximum_length) λ view saved.
    if is_valid_utf8 view then (value view, saved) else (failed ErrorCode.invalid_format, r)

unfoldable pub skip : BinaryReader → ℕ → Status × BinaryReader
skip r size =
    if ltb (remaining r) size
    then (ErrorCode.invalid_format, r)
    else (ErrorCode.ok, record r { position = r.position + size })

pub record BinaryWriter : Type 0 where
  pub bytes : List ℕ
  pub limit : ℕ
  pub order : ByteOrder

-- `BinaryWriter::Create`
unfoldable pub create_writer : ℕ → ByteOrder → Result BinaryWriter
create_writer maximum_bytes order =
    if maximum_bytes == 0 || ltb maximum_binary_buffer maximum_bytes
    then failed ErrorCode.invalid_argument
    else value (record { bytes = []; limit = maximum_bytes; order = order })

-- A span of the caller: bytes of its own, or a view of what the writer holds, which the writer
-- binds again after it has grown.
pub data Span : Type 0 where
  outside : List ℕ → Span
  inside : ℕ → ℕ → Span

abbrev pub span_size : Span → ℕ
span_size (outside bytes) = length bytes
span_size (inside offset size) = size

abbrev pub span_bytes : Span → BinaryWriter → List ℕ
span_bytes (outside bytes) w = bytes
span_bytes (inside offset size) w = take size (drop offset w.bytes)

-- Whether a view reaches beyond what the writer holds.
abbrev pub overruns : Span → BinaryWriter → Bool
overruns (outside bytes) w = false
overruns (inside offset size) w =
    not (size == 0) && ltb offset (length w.bytes) && ltb (length w.bytes - offset) size

-- Whether the vector can grow to a size is the allocator's.
module _ (allocate : ℕ → Bool) where
  unfoldable pub append : BinaryWriter → Span → Bool → Status × BinaryWriter
  append w span prefix =
      let header = if prefix then 4 else 0 in
      let prefixed = if prefix then store w.order (span_size span) 4 else [] in
      if ltb (w.limit - length w.bytes) header
        || ltb (w.limit - length w.bytes - header) (span_size span)
      then (ErrorCode.too_large, w)
      else if overruns span w
      then (ErrorCode.invalid_argument, w)
      else if not (allocate (length w.bytes + header + span_size span))
      then (allocation_failure, w)
      else (ErrorCode.ok, record w { bytes = w.bytes ++ (prefixed ++ span_bytes span w) })

  unfoldable pub write_unsigned : BinaryWriter → ℕ → ℕ → Status × BinaryWriter
  write_unsigned w n width =
      if not (is_width width) || (ltb width 8 && leb (2 ^ (width * 8)) n)
      then (ErrorCode.invalid_argument, w)
      else append w (outside (store w.order n width)) false

  unfoldable pub write_bool : BinaryWriter → Bool → Status × BinaryWriter
  write_bool w b = write_unsigned w (if b then 1 else 0) 1

  abbrev pub write_float32 : BinaryWriter → ℕ → Status × BinaryWriter
  write_float32 w bits = write_unsigned w bits 4

  abbrev pub write_float64 : BinaryWriter → ℕ → Status × BinaryWriter
  write_float64 w bits = write_unsigned w bits 8

  unfoldable pub write_bytes : BinaryWriter → Span → Status × BinaryWriter
  write_bytes w span = append w span false

  unfoldable pub write_length_prefixed : BinaryWriter → Span → ℕ → Status × BinaryWriter
  write_length_prefixed w span maximum_length =
      if ltb maximum_length (span_size span) || ltb (2 ^ 32 - 1) (span_size span)
      then (ErrorCode.too_large, w)
      else append w span true

  unfoldable pub write_utf8 : BinaryWriter → Span → ℕ → Status × BinaryWriter
  write_utf8 w span maximum_length =
      if ltb maximum_length (span_size span)
      then (ErrorCode.too_large, w)
      else if not (is_valid_utf8 (span_bytes span w))
      then (ErrorCode.invalid_argument, w)
      else write_length_prefixed w span maximum_length

abbrev pub clear : BinaryWriter → BinaryWriter
clear w = record w { bytes = [] }
