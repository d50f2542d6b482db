-- ===== src/Protocol/PacketExamples.antt =====
-- Runs of the binary messages and the datagrams on small inputs.
use server_core.Base.{
  ℕ, ◌+◌, ◌<◌, ◌≡◌, refl, true, some, List, [], ◌∷◌, ◌++◌, arith, All, take, replicate,
}
use server_core.Core.Error.{value}
use server_core.Protocol.BinaryMessage.{
  type_bytes, encode_binary_message, decode_binary_message, decode_binary_message-encode,
}
use server_core.Protocol.DatagramCodec.{header_bytes, encode, decode}
use server_core.Protocol.DatagramCodec.RoundTrip.{decode-encode}

decode_binary_message-encode_example :
    (encode_binary_message true 300 (7 ∷ []) 5 ≡ value (type_bytes 300 ++ 7 ∷ []))
    × (decode_binary_message (type_bytes 300 ++ 7 ∷ [])
        ≡ value (record { type = 300; payload = 7 ∷ [] }))
decode_binary_message-encode_example =
    decode_binary_message-encode 300 (7 ∷ []) 5 (λ h. absurd (omega (arith, h))) (omega arith)
      (omega arith)

abbrev some_token : List ℕ
some_token = 0x00 ∷ 0x1F ∷ 0xA9 ∷ 0xFF ∷ 4 ∷ 5 ∷ 6 ∷ 7 ∷ 8 ∷ 9 ∷ 10 ∷ 11 ∷ 12 ∷ 13 ∷ 14 ∷ 15 ∷ []

some_token-bytes : All (λ byte. byte < 256) some_token
some_token-bytes = ground arith

abbrev blank : List ℕ
blank = replicate 40 0

decode-encode_example :
    ((encode blank some_token 70000 (1 ∷ 2 ∷ [])).0 ≡ header_bytes + 2)
    × (decode (
          take
            (encode blank some_token 70000 (1 ∷ 2 ∷ [])).0
            (encode blank some_token 70000 (1 ∷ 2 ∷ [])).1)
        ≡ some (record { token = some_token; sequence = 70000; payload = 1 ∷ 2 ∷ [] }))
decode-encode_example =
    decode-encode some_token 70000 (1 ∷ 2 ∷ []) refl blank (λ h. absurd (omega (arith, h)))
      (omega arith) (omega arith) (omega arith) (omega arith)
