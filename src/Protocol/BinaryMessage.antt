-- ===== src/Protocol/BinaryMessage.antt =====
-- src/Protocol/BinaryMessage.cpp: a number for the type, little-endian, and a payload.
use server_core.Base.{
  ℕ, ◌+◌, ◌-◌, ◌/◌, ◌^◌, ◌≤◌, ◌<◌, ◌≡◌, refl, ap, ◌∙◌, ◌≢◌, Bool, true, not, ◌||◌, List, [], ◌∷◌,
  ◌++◌, arith, ltb, ◌==◌, ==_iff, if◌then◌else◌, length, length-append, drop, get_or, bit_or,
  bit_and, drop-append_self,
}
use server_core.Base.Bits.{zero-bit_or, bit_and_255}
use server_core.Core.Error.{ErrorCode, Result, value, failed, allocation_failure}
use server_core.Protocol.FrameCodec.{byte_at, join, read_length, header}
use server_core.Protocol.FrameCodec.Length.{read_length-header}

abbrev pub header_size : ℕ
header_size = 4

pub record BinaryMessageView : Type 0 where
  pub type : ℕ
  pub payload : List ℕ

-- The loop over the first four bytes.
unfoldable pub type_of : List ℕ → ℕ
type_of bytes =
    bit_or
      (bit_or (bit_or (bit_or 0 (byte_at (get_or bytes 0 0) 0)) (byte_at (get_or bytes 1 0) 8))
        (byte_at (get_or bytes 2 0) 16))
      (byte_at (get_or bytes 3 0) 24)

unfoldable pub decode_binary_message : List ℕ → Result BinaryMessageView
decode_binary_message bytes =
    if ltb (length bytes) header_size
    then failed ErrorCode.invalid_format
    else if type_of bytes == 0
    then failed ErrorCode.invalid_format
    else value (record { type = type_of bytes; payload = drop header_size bytes })

unfoldable pub type_bytes : ℕ → List ℕ
type_bytes type =
    bit_and (type / 2 ^ 0) 0xFF
    ∷ bit_and (type / 2 ^ 8) 0xFF
    ∷ bit_and (type / 2 ^ 16) 0xFF
    ∷ bit_and (type / 2 ^ 24) 0xFF
    ∷ []

-- Whether the vector can be made is the allocator's.
unfoldable pub encode_binary_message : Bool → ℕ → List ℕ → ℕ → Result (List ℕ)
encode_binary_message granted type payload maximum_bytes =
    if type == 0
    then failed ErrorCode.invalid_argument
    else if ltb maximum_bytes header_size || ltb (maximum_bytes - header_size) (length payload)
    then failed ErrorCode.too_large
    else if not granted
    then failed allocation_failure
    else value (type_bytes type ++ payload)

type_bytes-header : (type : ℕ) → type_bytes type ≡ header type
unfolding type_bytes header
type_bytes-header type =
    ap
      (λ t.
        bit_and t 0xFF
        ∷ bit_and (type / 2 ^ 8) 0xFF
        ∷ bit_and (type / 2 ^ 16) 0xFF
        ∷ bit_and (type / 2 ^ 24) 0xFF
        ∷ [])
      {x = type / 2 ^ 0} {y = type} (omega arith)

type_of-read_length : (bytes : List ℕ) → get_or bytes 0 0 < 256 → type_of bytes ≡ read_length bytes
unfolding type_of read_length join
type_of-read_length bytes h =
    ap
      (λ t.
        bit_or (bit_or (bit_or t (byte_at (get_or bytes 1 0) 8)) (byte_at (get_or bytes 2 0) 16))
          (byte_at (get_or bytes 3 0) 24))
      (zero-bit_or (byte_at (get_or bytes 0 0) 0) ∙ omega (arith, h))

type_of-type_bytes :
    (type : ℕ) (payload : List ℕ) → type < 2 ^ 32 → type_of (type_bytes type ++ payload) ≡ type
type_of-type_bytes type payload h =
    ap (λ t. type_of (t ++ payload)) (type_bytes-header type)
    ∙ type_of-read_length (header type ++ payload)
        (unfold header in omega (arith, bit_and_255 type))
    ∙ read_length-header type payload h

length-type_bytes : (type : ℕ) → length (type_bytes type) ≡ 4
unfolding type_bytes
length-type_bytes type = refl

-- A message with a type other than zero that fits is encoded if the vector can be made, and decoded
-- to its type and payload.
pub decode_binary_message-encode :
    (type : ℕ) (payload : List ℕ) (maximum_bytes : ℕ)
    → type ≢ 0
    → type < 2 ^ 32
    → header_size + length payload ≤ maximum_bytes
    → (encode_binary_message true type payload maximum_bytes ≡ value (type_bytes type ++ payload))
      × (decode_binary_message (type_bytes type ++ payload)
          ≡ value (record { type = type; payload = payload }))
unfolding encode_binary_message decode_binary_message
decode_binary_message-encode type payload maximum_bytes h k fits = (
  ground (arith, ==_iff type 0, h, fits),
  ground (
    arith,
    type_of-type_bytes type payload k,
    ==_iff type 0,
    h,
    length-append (type_bytes type) payload,
    drop-append_self 4 (type_bytes type) payload (length-type_bytes type),
    length-type_bytes type,
  ),
)
