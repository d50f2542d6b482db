-- ===== src/Protocol/DatagramCodec.antt =====
-- include/ServerCore/Protocol/DatagramCodec.h: one payload in one datagram, behind a magic number, a
-- token of 16 bytes and a sequence number.
pub mod RoundTrip
use server_core.Base.{
  ℕ, zero, suc, ◌+◌, ◌-◌, ◌*◌, ◌/◌, ◌%◌, ◌^◌, Bool, true, false, not, ◌&&◌, ◌||◌, Option, none,
  some, List, [], ◌∷◌, ◌++◌, ltb, leb, ◌==◌, if◌then◌else◌, length, take, drop, get_or, bit_or,
  bit_and,
}
use server_core.Base.Store.{overwrite}

abbrev pub header_bytes : ℕ
header_bytes = 28

abbrev pub maximum_datagram_bytes : ℕ
maximum_datagram_bytes = 1200

abbrev pub maximum_payload_bytes : ℕ
maximum_payload_bytes = maximum_datagram_bytes - header_bytes

abbrev pub token_size : ℕ
token_size = 16

pub record PacketView : Type 0 where
  pub token : List ℕ
  pub sequence : ℕ
  pub payload : List ℕ

-- A digit of `Hex`, by its place.
abbrev pub hex_character : ℕ → ℕ
hex_character n = if ltb n 10 then 0x30 + n else 0x61 + (n - 10)

unfoldable pub token_to_hex : List ℕ → List ℕ
token_to_hex [] = []
token_to_hex (byte ∷ token) =
    hex_character (byte / 2 ^ 4) ∷ hex_character (bit_and byte 15) ∷ token_to_hex token

-- `none` is -1.
abbrev pub nibble : ℕ → Option ℕ
nibble character =
    if leb 0x30 character && leb character 0x39
    then some (character - 0x30)
    else if leb 0x61 character && leb character 0x66
    then some (character - 0x61 + 10)
    else if leb 0x41 character && leb character 0x46
    then some (character - 0x41 + 10)
    else none

abbrev pub push_byte : Option ℕ → Option ℕ → Option (List ℕ) → Option (List ℕ)
push_byte (some high) (some low) (some token) = some (bit_or (high * 2 ^ 4) low ∷ token)
push_byte _ _ _ = none

-- The loop of `TokenFromHex`, two characters at a time.
unfoldable pub bytes_from_hex : List ℕ → Option (List ℕ)
bytes_from_hex [] = some []
bytes_from_hex (high ∷ []) = none
bytes_from_hex (high ∷ low ∷ text) = push_byte (nibble high) (nibble low) (bytes_from_hex text)

unfoldable pub token_from_hex : List ℕ → Option (List ℕ)
unfolding bytes_from_hex
token_from_hex text = if not (length text == 32) then none else bytes_from_hex text

abbrev pub magic : List ℕ
magic = 0x53 ∷ 0x4D ∷ 0x55 ∷ 0x31 ∷ []

-- The loop over the bytes of the sequence number, with `count` to go.
unfoldable pub sequence_bytes : ℕ → ℕ → ℕ → List ℕ
sequence_bytes sequence index zero = []
sequence_bytes sequence index (suc count) =
    bit_and (sequence / 2 ^ ((7 - index) * 8)) 255 ∷ sequence_bytes sequence (index + 1) count

-- How many bytes were written, and what the destination holds afterwards.
unfoldable pub encode : List ℕ → List ℕ → ℕ → List ℕ → ℕ × List ℕ
encode destination token sequence payload =
    if sequence == 0
      || length payload == 0
      || ltb maximum_payload_bytes (length payload)
      || ltb (length destination) (header_bytes + length payload)
    then (0, destination)
    else (
      header_bytes + length payload,
      overwrite
          (overwrite (overwrite (overwrite destination 0 magic) 4 token) 20
            (sequence_bytes sequence 0 8))
          header_bytes payload,
    )

-- The loop that reads the sequence number.
unfoldable pub sequence_of : ℕ → List ℕ → ℕ
sequence_of sequence [] = sequence
sequence_of sequence (byte ∷ bytes) = sequence_of (bit_or (sequence * 2 ^ 8 % 2 ^ 64) byte) bytes

unfoldable pub decode : List ℕ → Option PacketView
decode datagram =
    let sequence = sequence_of 0 (take 8 (drop 20 datagram)) in
    if leb (length datagram) header_bytes
      || ltb maximum_datagram_bytes (length datagram)
      || not (get_or datagram 0 0 == 0x53)
      || not (get_or datagram 1 0 == 0x4D)
      || not (get_or datagram 2 0 == 0x55)
      || not (get_or datagram 3 0 == 0x31)
    then none
    else if sequence == 0
    then none
    else some (record {
      token = take token_size (drop 4 datagram);
      sequence = sequence;
      payload = drop header_bytes datagram;
    })
