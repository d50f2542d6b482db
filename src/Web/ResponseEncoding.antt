-- ===== src/Web/ResponseEncoding.antt =====
-- `EncodeChunk` of src/Web/ResponseEncoding.cpp. A size has 64 bits, and so at most 16 digits.
-- `granted` is whether memory is granted for the chunk.
pub mod Chunks
use server_core.Base.{
  ℕ, zero, suc, ◌+◌, ◌-◌, ◌*◌, ◌/◌, ◌%◌, ◌^◌, ◌≤◌, ◌<◌, ◌≡◌, refl, ap, ◌∙◌, Bool, true, false,
  Option, none, some, List, [], ◌∷◌, ◌++◌, arith, ltb, leb, ◌==◌, if◌then◌else◌, length,
  append_assoc, not, ◌&&◌, Bool-cases, Option-cases, ltb→lt, ltb→le, lt→ltb, replicate, sym, inl,
  inr, ◌⊎◌, ==_iff,
}
use native.Mathlib.Nat.{pow-suc}
use server_core.Base.Bits.{holds_below, holds_below_lem}
use server_core.Base.Text.{
  contains_byte, before, behind, contains-append, before-append, behind-append,
}
use server_core.Core.Error.{ErrorCode, allocation_failure, Result, value, failed, value-injective}
use server_core.Core.Endpoint.{is_empty, hex_digit, hex_value}
use server_core.Core.Endpoint.Printing.{hex_of, hex_text}

abbrev pub chunk_digits : List ℕ → List ℕ
chunk_digits bytes = hex_text 16 (length bytes)

-- What stands behind the carriage return of the size line.
abbrev pub chunk_tail : List ℕ → List ℕ
chunk_tail bytes = 0x0A ∷ (bytes ++ 0x0D ∷ 0x0A ∷ [])

unfoldable pub encode_chunk : Bool → List ℕ → ℕ → Result (List ℕ)
encode_chunk granted bytes max_chunk_bytes =
    if is_empty bytes
    then failed ErrorCode.invalid_argument
    else if ltb max_chunk_bytes (length bytes)
    then failed ErrorCode.too_large
    else if ltb (2 ^ 64 - 1 - length (chunk_digits bytes) - 4) (length bytes)
    then failed ErrorCode.too_large
    else if granted
    then value (chunk_digits bytes ++ 0x0D ∷ chunk_tail bytes)
    else failed allocation_failure
