-- ===== src/Web/RoutePattern/Escapes.antt =====
-- Text written with percent signs, and decoded.
use server_core.Base.{
  ℕ, ◌+◌, ◌-◌, ◌/◌, ◌%◌, ◌<◌, ◌≡◌, refl, ap, ap₂, ◌∙◌, none, some, List, [], ◌∷◌, arith, ltb,
  if◌then◌else◌, All,
}
use server_core.Web.RoutePattern.{
  percent, hex_digit, both_digits, push_byte, decode_from, accept_segment, decode_segment,
}
use server_core.Web.RoutePattern.Segments.{IsAllowed, IsSafe, is_refused-IsAllowed}

abbrev pub hex_of : ℕ → ℕ
hex_of n = if ltb n 10 then 0x30 + n else 0x61 + (n - 10)

abbrev pub escape : List ℕ → List ℕ
escape [] = []
escape (byte ∷ text) = percent ∷ hex_of (byte / 16) ∷ hex_of (byte % 16) ∷ escape text

hex_digit-hex_of : (n : ℕ) → n < 16 → hex_digit (hex_of n) ≡ some n
hex_digit-hex_of n h = ground arith

decode_from-escape :
    (text : List ℕ)
    → All (λ byte. byte < 256) text
    → All IsAllowed text
    → decode_from 0 (escape text) ≡ some text
unfolding decode_from
decode_from-escape [] h k = refl
decode_from-escape (byte ∷ text) h k =
    let digits : both_digits (hex_digit (hex_of (byte / 16))) (hex_digit (hex_of (byte % 16)))
        ≡ some byte =
      ap₂ both_digits (hex_digit-hex_of (byte / 16) (omega (arith, h.0)))
        (hex_digit-hex_of (byte % 16) (omega arith))
      ∙ ap some (omega arith) in
    let pushed : push_byte (some byte) (some text) ≡ some (byte ∷ text) =
      ap (λ b. if b then none else some (byte ∷ text)) ((is_refused-IsAllowed byte).1 k.0) in
    let decoded : push_byte
          (both_digits (hex_digit (hex_of (byte / 16))) (hex_digit (hex_of (byte % 16))))
          (decode_from 0 (escape text))
        ≡ some (byte ∷ text) =
      ap₂ push_byte digits (decode_from-escape text h.1 k.1) ∙ pushed in
    ground (arith, decoded)

-- A safe text, written with a percent sign for each byte, is decoded to itself.
pub decode_segment-escape :
    (text : List ℕ)
    → All (λ byte. byte < 256) text
    → IsSafe text
    → decode_segment (escape text) ≡ some text
unfolding decode_segment
decode_segment-escape text h s =
    ap accept_segment (decode_from-escape text h s.allowed) ∙ ground (arith, s.named, s.text)
