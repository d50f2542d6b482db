-- ===== src/Protocol/DatagramCodec/RoundTrip.antt =====
-- Tokens and datagrams that are written and read back.
use server_core.Base.{
  ℕ, suc, ◌+◌, ◌*◌, ◌/◌, ◌%◌, ◌^◌, ◌≤◌, ◌<◌, ◌≡◌, ◌≢◌, refl, sym, ap, ap₂, ◌∙◌, some, List, [], ◌∷◌,
  ◌++◌, append_assoc, arith, ==_iff, length, length-append, take, drop, bit_or, bit_and, All,
  drop-append_self, take-append_self, drop-drop,
}
use native.Mathlib.Nat.{mod-eq_of_lt, pow-le-pow_right}
use server_core.Base.Bits.{bit_and_mask, bit_or-high_low, pow_pos}
use server_core.Base.Store.{overwrite}
use server_core.Protocol.BinaryIo.{big_endian, store, store_from}
use server_core.Protocol.BinaryIo.Digits.{
  IsByte, big_value, pow_8, value_of-store, length-store_from, store_from-bytes,
}
use server_core.Protocol.DatagramCodec.{
  header_bytes, maximum_payload_bytes, token_size, hex_character, token_to_hex, nibble, push_byte,
  bytes_from_hex, token_from_hex, magic, sequence_bytes, encode, sequence_of, decode,
}

nibble-hex_character : (n : ℕ) → n < 16 → nibble (hex_character n) ≡ some n
nibble-hex_character n h = ground arith

length-token_to_hex : (token : List ℕ) → length (token_to_hex token) ≡ 2 * length token
unfolding token_to_hex
length-token_to_hex [] = omega arith
length-token_to_hex (byte ∷ token) = omega (arith, length-token_to_hex token)

bytes_from_hex-token_to_hex :
    (token : List ℕ) → All IsByte token → bytes_from_hex (token_to_hex token) ≡ some token
unfolding token_to_hex bytes_from_hex
bytes_from_hex-token_to_hex [] h = refl
bytes_from_hex-token_to_hex (byte ∷ token) h =
    let mask : bit_and byte 15 ≡ byte % 16 = bit_and_mask 4 byte in
    let high : nibble (hex_character (byte / 16)) ≡ some (byte / 16) =
      nibble-hex_character (byte / 16) (omega (arith, h.0)) in
    let low : nibble (hex_character (bit_and byte 15)) ≡ some (byte % 16) =
      ap (λ n. nibble (hex_character n)) mask ∙ nibble-hex_character (byte % 16) (omega arith) in
    let whole : bit_or (byte / 16 * 2 ^ 4) (byte % 16) ≡ byte =
      bit_or-high_low 4 (byte / 16) (byte % 16) (omega arith) ∙ omega arith in
    ap₂ (λ a b. push_byte a b (bytes_from_hex (token_to_hex token))) high low
    ∙ ap (push_byte (some (byte / 16)) (some (byte % 16))) (bytes_from_hex-token_to_hex token h.1)
    ∙ ap (λ b. some (b ∷ token)) whole

-- A token is read back from its hexadecimal digits.
pub token_from_hex-token_to_hex :
    (token : List ℕ)
    → All IsByte token
    → length token ≡ token_size
    → token_from_hex (token_to_hex token) ≡ some token
unfolding token_from_hex
token_from_hex-token_to_hex token h k = ground (
  arith,
  bytes_from_hex-token_to_hex token h,
  length-token_to_hex token,
  k,
  ==_iff (length (token_to_hex token)) 32,
)

sequence_bytes-store : (sequence : ℕ) → sequence_bytes sequence 0 8 ≡ store big_endian sequence 8
unfolding sequence_bytes store_from
sequence_bytes-store sequence = refl

-- The loop shifts the number that it has by one byte for each byte that it reads.
sequence_of-big_value :
    (n sequence : ℕ) (bytes : List ℕ)
    → All IsByte bytes
    → n + length bytes ≤ 8
    → sequence < 2 ^ (8 * n)
    → sequence_of sequence bytes ≡ sequence * 2 ^ (8 * length bytes) + big_value bytes
unfolding sequence_of
sequence_of-big_value n sequence [] h k b = omega arith
sequence_of-big_value n sequence (byte ∷ bytes) h k b =
    let p : ℕ = 2 ^ (8 * length bytes) in
    let up : 2 ^ (8 * suc n) ≡ 256 * 2 ^ (8 * n) = pow_8 n in
    let small : sequence * 2 ^ 8 < 2 ^ 64 = omega (
      arith,
      up,
      b,
      pow-le-pow_right {n = 2} (omega arith) {i = 8 * suc n} {j = 64} (omega arith),
    ) in
    let joined : bit_or (sequence * 2 ^ 8 % 2 ^ 64) byte ≡ sequence * 256 + byte =
      ap (λ t. bit_or t byte) (mod-eq_of_lt small)
      ∙ bit_or-high_low 8 sequence byte (omega (arith, h.0)) in
    ap (λ t. sequence_of t bytes) joined
    ∙ sequence_of-big_value (suc n) (sequence * 256 + byte) bytes h.1 (omega arith)
        (omega (arith, up, b, h.0))
    ∙ omega (arith, ap (λ q. sequence * q) (pow_8 (length bytes)))

sequence_of-sequence_bytes :
    (sequence : ℕ) → sequence < 2 ^ 64 → sequence_of 0 (sequence_bytes sequence 0 8) ≡ sequence
sequence_of-sequence_bytes sequence h =
    ap (sequence_of 0) (sequence_bytes-store sequence)
    ∙ sequence_of-big_value 0 0 (store big_endian sequence 8)
        (store_from-bytes big_endian sequence 8 0 8)
        (omega (arith, length-store_from big_endian sequence 8 0 8)) (omega (arith, pow_pos 0))
    ∙ omega arith
    ∙ value_of-store big_endian sequence 8 h

overwrite-next :
    (front rest src : List ℕ) (i : ℕ)
    → length front ≡ i
    → overwrite (front ++ rest) i src ≡ (front ++ src) ++ drop (length src) rest
unfolding overwrite
overwrite-next front rest src i e =
    ap₂ (λ a b. a ++ (src ++ b)) (take-append_self i front rest e)
      (sym (drop-drop (length src) i (front ++ rest))
        ∙ ap (drop (length src)) (drop-append_self i front rest e))
    ∙ sym (append_assoc front src (drop (length src) rest))

-- The bytes of a datagram.
abbrev pub packet : List ℕ → ℕ → List ℕ → List ℕ
packet token sequence payload = ((magic ++ token) ++ sequence_bytes sequence 0 8) ++ payload

length-sequence_bytes : (sequence : ℕ) → length (sequence_bytes sequence 0 8) ≡ 8
length-sequence_bytes sequence =
    ap length (sequence_bytes-store sequence) ∙ length-store_from big_endian sequence 8 0 8

module _ (token : List ℕ) (sequence : ℕ) (payload : List ℕ) (t : length token ≡ token_size) where
  length-packet : length (packet token sequence payload) ≡ header_bytes + length payload
  length-packet = omega (
    arith,
    length-append ((magic ++ token) ++ sequence_bytes sequence 0 8) payload,
    length-append (magic ++ token) (sequence_bytes sequence 0 8),
    length-append magic token,
    length-sequence_bytes sequence,
    t,
  )

  written :
      (destination : List ℕ)
      → overwrite
          (overwrite
            (overwrite (overwrite destination 0 magic) 4 token)
            20
            (sequence_bytes sequence 0 8))
          header_bytes
          payload
        ≡ packet token sequence payload
          ++ drop (length payload) (
              drop
                (length (sequence_bytes sequence 0 8))
                (drop (length token) (drop 4 destination)))
  written destination =
      let s : List ℕ = sequence_bytes sequence 0 8 in
      let d1 : List ℕ = drop 4 destination in
      let d2 : List ℕ = drop (length token) d1 in
      let d3 : List ℕ = drop (length s) d2 in
      let size2 : length (magic ++ token) ≡ 20 = omega (arith, length-append magic token, t) in
      let size3 : length ((magic ++ token) ++ s) ≡ 28 =
        omega (arith, length-append (magic ++ token) s, size2, length-sequence_bytes sequence) in
      ap (λ d. overwrite (overwrite (overwrite d 4 token) 20 s) header_bytes payload)
        (overwrite-next [] destination magic 0 refl)
      ∙ ap (λ d. overwrite (overwrite d 20 s) header_bytes payload)
          (overwrite-next magic d1 token 4 refl)
      ∙ ap (λ d. overwrite d header_bytes payload) (overwrite-next (magic ++ token) d2 s 20 size2)
      ∙ overwrite-next ((magic ++ token) ++ s) d3 payload 28 size3

  behind_magic :
      drop 4 (packet token sequence payload) ≡ token ++ (sequence_bytes sequence 0 8 ++ payload)
  behind_magic = append_assoc token (sequence_bytes sequence 0 8) payload

  token_read : take token_size (drop 4 (packet token sequence payload)) ≡ token
  token_read = ap (take token_size) behind_magic ∙ take-append_self token_size token _ t

  behind_token : drop 20 (packet token sequence payload) ≡ sequence_bytes sequence 0 8 ++ payload
  behind_token =
      ap (λ n. drop n (packet token sequence payload)) {x = 20} {y = 4 + token_size} refl
      ∙ sym (drop-drop token_size 4 (packet token sequence payload))
      ∙ ap (drop token_size) behind_magic
      ∙ drop-append_self token_size token (sequence_bytes sequence 0 8 ++ payload) t

  sequence_read :
      sequence < 2 ^ 64
      → sequence_of 0 (take 8 (drop 20 (packet token sequence payload))) ≡ sequence
  sequence_read h =
      ap (λ d. sequence_of 0 (take 8 d)) behind_token
      ∙ ap (sequence_of 0) (
          take-append_self 8 (sequence_bytes sequence 0 8) payload (length-sequence_bytes sequence))
      ∙ sequence_of-sequence_bytes sequence h

  payload_read : drop header_bytes (packet token sequence payload) ≡ payload
  payload_read =
      ap (λ n. drop n (packet token sequence payload)) {x = 28} {y = 20 + 8} refl
      ∙ sym (drop-drop 8 20 (packet token sequence payload))
      ∙ ap (drop 8) behind_token
      ∙ drop-append_self 8 (sequence_bytes sequence 0 8) payload (length-sequence_bytes sequence)

  decode-packet :
      sequence ≢ 0
      → sequence < 2 ^ 64
      → 0 < length payload
      → length payload ≤ maximum_payload_bytes
      → decode (packet token sequence payload)
        ≡ some (record { token = token; sequence = sequence; payload = payload })
  unfolding decode
  decode-packet h k filled small = ground (
    arith,
    length-packet,
    token_read,
    sequence_read k,
    payload_read,
    ==_iff sequence 0,
    h,
    filled,
    small,
  )

  -- A datagram with a sequence number other than zero and a payload of the allowed size, written to
  -- a destination with room, has its header and its payload as its size, and what was written is
  -- decoded to the token, the number and the payload.
  pub decode-encode :
      (destination : List ℕ)
      → sequence ≢ 0
      → sequence < 2 ^ 64
      → 0 < length payload
      → length payload ≤ maximum_payload_bytes
      → header_bytes + length payload ≤ length destination
      → let out = encode destination token sequence payload in
        (out.0 ≡ header_bytes + length payload)
        × (decode (take out.0 out.1)
            ≡ some (record { token = token; sequence = sequence; payload = payload }))
  decode-encode destination h k filled small room =
      let n : ℕ = header_bytes + length payload in
      let tail : List ℕ =
        drop (length payload) (
          drop (length (sequence_bytes sequence 0 8)) (drop (length token) (drop 4 destination))) in
      let out : encode destination token sequence payload
          ≡ (n, packet token sequence payload ++ tail) =
        accepted ∙ ap (λ d. (n, d)) (written destination) in
      (
        ap (λ o. o.0) out,
        ap (λ o. decode (take o.0 o.1)) out
            ∙ ap decode (take-append_self n (packet token sequence payload) tail length-packet)
            ∙ decode-packet h k filled small,
      )
    where
      accepted : encode destination token sequence payload ≡ (
        header_bytes + length payload,
        overwrite
            (overwrite
              (overwrite (overwrite destination 0 magic) 4 token)
              20
              (sequence_bytes sequence 0 8))
            header_bytes
            payload,
      )
      accepted =
          unfold encode in
          ground (arith, h, filled, small, room, ==_iff sequence 0, ==_iff (length payload) 0)
