-- ===== src/Web/RequestData.antt =====
-- src/Web/RequestData.cpp: percent encoding, query and form fields, cookies. Text is its bytes. Whether
-- memory is granted is an argument: whether the output can be reserved, or, where it grows step by
-- step, whether it can grow to a length.
pub mod Percent
pub mod Fields
use server_core.Base.{
  ℕ, zero, suc, ◌+◌, ◌-◌, ◌*◌, ◌/◌, ◌%◌, ◌^◌, ◌≡◌, Bool, true, false, not, ◌&&◌, ◌||◌, Option, none,
  some, List, [], ◌∷◌, ◌++◌, ltb, leb, ◌==◌, if◌then◌else◌, length, get_or,
}
pub use server_core.Base.Text.{contains_byte, before, behind, onto_first}
unfoldable pub use server_core.Base.Text.{split_at}
use server_core.Core.Error.{ErrorCode, Status, allocation_failure, Result, value, failed, ◌>>=◌}
use server_core.Core.Utf8.{is_valid_utf8}

pub record FieldLimits : Type 0 where
  pub max_bytes : ℕ
  pub max_fields : ℕ
  pub max_name_bytes : ℕ
  pub max_value_bytes : ℕ

-- `Valid`
abbrev pub valid_limits : FieldLimits → Bool
valid_limits limits =
    not (limits.max_bytes == 0)
    && not (limits.max_fields == 0)
    && not (limits.max_name_bytes == 0)
    && not (limits.max_value_bytes == 0)

-- `Text`
abbrev pub is_text : List ℕ → Bool
is_text text = not (contains_byte 0 text) && is_valid_utf8 text

-- `Hex`; `none` is -1.
abbrev pub hex : ℕ → Option ℕ
hex byte =
    if leb 0x30 byte && leb byte 0x39
    then some (byte - 0x30)
    else if leb 0x41 byte && leb byte 0x46
    then some (byte - 0x41 + 10)
    else if leb 0x61 byte && leb byte 0x66
    then some (byte - 0x61 + 10)
    else none

abbrev pub onto : ℕ → Result (List ℕ) → Result (List ℕ)
onto byte (value text) = value (byte ∷ text)
onto byte (failed e) = failed e

-- The byte goes behind the `size` bytes that the result has, in front of what follows.
abbrev pub push_decoded : ℕ → ℕ → ℕ → Result (List ℕ) → Result (List ℕ)
push_decoded max_bytes size byte rest =
    if size == max_bytes then failed ErrorCode.too_large else onto byte rest

abbrev pub push_escaped : ℕ → ℕ → Option ℕ → Option ℕ → Result (List ℕ) → Result (List ℕ)
push_escaped max_bytes size (some high) (some low) rest =
    push_decoded max_bytes size (high * 16 + low) rest
push_escaped max_bytes size _ _ rest = failed ErrorCode.invalid_format

-- The loop of `PercentDecodeComponent`, with `skip` bytes that an escape has used.
unfoldable pub decode_from : Bool → ℕ → ℕ → ℕ → List ℕ → Result (List ℕ)
decode_from plus_as_space max_bytes skip size [] = value []
decode_from plus_as_space max_bytes (suc skip) size (byte ∷ rest) =
    decode_from plus_as_space max_bytes skip size rest
decode_from plus_as_space max_bytes zero size (byte ∷ rest) =
    let plain = decode_from plus_as_space max_bytes 0 (size + 1) rest in
    let behind = decode_from plus_as_space max_bytes 2 (size + 1) rest in
    if byte == 0x25
    then if ltb (length rest) 2
      then failed ErrorCode.invalid_format
      else push_escaped max_bytes size (hex (get_or rest 0 0)) (hex (get_or rest 1 0)) behind
    else push_decoded max_bytes size (if byte == 0x2B && plus_as_space then 0x20 else byte) plain

abbrev pub accept_text : Result (List ℕ) → Result (List ℕ)
accept_text (value text) = if is_text text then value text else failed ErrorCode.invalid_format
accept_text (failed e) = failed e

unfoldable pub percent_decode_component : Bool → List ℕ → Bool → ℕ → Result (List ℕ)
unfolding decode_from
percent_decode_component granted input plus_as_space max_bytes =
    if max_bytes == 0
    then failed ErrorCode.invalid_argument
    else if not granted
    then failed allocation_failure
    else accept_text (decode_from plus_as_space max_bytes 0 0 input)

abbrev pub is_alphanumeric : ℕ → Bool
is_alphanumeric byte =
    (leb 0x61 byte && leb byte 0x7A)
    || (leb 0x41 byte && leb byte 0x5A)
    || (leb 0x30 byte && leb byte 0x39)

-- A byte that stands for itself.
abbrev pub is_literal : Bool → ℕ → Bool
is_literal form_mode byte =
    is_alphanumeric byte
    || byte == 0x2D
    || byte == 0x2E
    || byte == 0x5F
    || (if form_mode then byte == 0x2A else byte == 0x7E)

-- The digits "0123456789ABCDEF".
abbrev pub hex_digit_of : ℕ → ℕ
hex_digit_of n = if ltb n 10 then 0x30 + n else 0x41 + (n - 10)

abbrev pub encode_byte : Bool → ℕ → List ℕ
encode_byte form_mode byte =
    if is_literal form_mode byte
    then byte ∷ []
    else if form_mode && byte == 0x20
    then 0x2B ∷ []
    else 0x25 ∷ hex_digit_of (byte / 16) ∷ hex_digit_of (byte % 16) ∷ []

abbrev pub append_onto : List ℕ → Result (List ℕ) → Result (List ℕ)
append_onto front (value text) = value (front ++ text)
append_onto front (failed e) = failed e

-- The loop of `PercentEncodeComponent`; `grows n` is whether the result can hold `n` bytes.
unfoldable pub encode_from : (ℕ → Bool) → Bool → ℕ → ℕ → List ℕ → Result (List ℕ)
encode_from grows form_mode max_bytes size [] = value []
encode_from grows form_mode max_bytes size (byte ∷ input) =
    let written = encode_byte form_mode byte in
    let rest = encode_from grows form_mode max_bytes (size + length written) input in
    if ltb (max_bytes - size) (length written)
    then failed ErrorCode.too_large
    else if not (grows (size + length written))
    then failed allocation_failure
    else append_onto written rest

unfoldable pub percent_encode_component : (ℕ → Bool) → List ℕ → Bool → ℕ → Result (List ℕ)
unfolding encode_from
percent_encode_component grows input form_mode max_bytes =
    if max_bytes == 0 || not (is_text input)
    then failed ErrorCode.invalid_argument
    else encode_from grows form_mode max_bytes 0 input

abbrev pub is_empty : List ℕ → Bool
is_empty [] = true
is_empty (byte ∷ text) = false

abbrev pub Field : Type 0
Field = List ℕ × List ℕ

abbrev pub first_field : Field → Result (List Field) → Result (List Field)
first_field field (value fields) = value (field ∷ fields)
first_field field (failed e) = failed e

-- One field, in front of what follows.
unfoldable pub parse_field :
    Bool → Bool → FieldLimits → List ℕ → Result (List Field) → Result (List Field)
unfolding percent_decode_component
parse_field granted form limits field rest =
    percent_decode_component granted (before 0x3D field) form limits.max_name_bytes >>= λ name.
    percent_decode_component granted (behind 0x3D field) form limits.max_value_bytes >>= λ text.
    first_field (name, text) rest

-- The loop of `ParseFields`, with `count` fields in the result.
unfoldable pub parse_from : Bool → Bool → FieldLimits → ℕ → List (List ℕ) → Result (List Field)
unfolding parse_field
parse_from granted form limits count [] = value []
parse_from granted form limits count (field ∷ fields) =
    let same = parse_from granted form limits count fields in
    let more = parse_from granted form limits (count + 1) fields in
    if is_empty field
    then same
    else if count == limits.max_fields
    then failed ErrorCode.too_large
    else parse_field granted form limits field more

unfoldable pub parse_fields : Bool → List ℕ → Bool → FieldLimits → Result (List Field)
unfolding parse_from split_at
parse_fields granted input form limits =
    if not (valid_limits limits)
    then failed ErrorCode.invalid_argument
    else if ltb limits.max_bytes (length input)
    then failed ErrorCode.too_large
    else parse_from granted form limits 0 (split_at 0x26 input)

unfoldable pub parse_query_parameters : Bool → List ℕ → FieldLimits → Result (List Field)
unfolding parse_fields
parse_query_parameters granted target limits =
    if contains_byte 0x23 target
    then failed ErrorCode.invalid_format
    else parse_fields granted (behind 0x3F target) false limits

unfoldable pub parse_form_url_encoded : Bool → List ℕ → FieldLimits → Result (List Field)
unfolding parse_fields
parse_form_url_encoded granted body limits = parse_fields granted body true limits
