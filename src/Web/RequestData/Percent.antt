-- ===== src/Web/RequestData/Percent.antt =====
-- Percent encoding of src/Web/RequestData.cpp and back.
use server_core.Base.{
  ℕ, suc, ◌+◌, ◌-◌, ◌*◌, ◌/◌, ◌%◌, ◌≤◌, ◌<◌, ◌≡◌, refl, sym, ap, ap₂, subst₂, ◌∙◌, inl, inr, Bool,
  true, false, ◌&&◌, some, List, [], ◌∷◌, ◌++◌, arith, ltb, ◌==◌, ==_iff, le→ltb, ltb→le, lt→==,
  if◌then◌else◌, length, length-append, All, Bool-cases,
}
use server_core.Core.Error.{ErrorCode, Result, value, failed, value-injective}
use server_core.Web.RequestData.{
  hex, push_decoded, push_escaped, decode_from, accept_text, is_text, percent_decode_component,
  is_literal, hex_digit_of, encode_byte, append_onto, encode_from, percent_encode_component,
}

-- The encoding of a whole text.
abbrev pub encoded : Bool → List ℕ → List ℕ
encoded form_mode [] = []
encoded form_mode (byte ∷ text) = encode_byte form_mode byte ++ encoded form_mode text

hex-hex_digit_of : (n : ℕ) → n < 16 → hex (hex_digit_of n) ≡ some n
hex-hex_digit_of n h = ground arith

literal-plain :
    (form : Bool) (byte : ℕ)
    → is_literal form byte ≡ true
    → ((byte == 0x25) ≡ false) × ((byte == 0x2B) ≡ false)
literal-plain true byte h = ground (arith, h)
literal-plain false byte h = ground (arith, h)

pub space-lem :
    (form : Bool) (byte : ℕ) → (form && byte == 0x20) ≡ true → (form ≡ true) × (byte ≡ 0x20)
space-lem true byte h = (refl, (==_iff byte 0x20).0 h)
space-lem false byte h = cc

decode-escape :
    (form : Bool) (byte max size : ℕ) (rest : List ℕ)
    → byte < 256
    → decode_from form max 0 size
        (0x25 ∷ hex_digit_of (byte / 16) ∷ hex_digit_of (byte % 16) ∷ rest)
      ≡ push_decoded max size byte (decode_from form max 0 (size + 1) rest)
unfolding decode_from
decode-escape form byte max size rest h =
    let more = decode_from form max 0 (size + 1) rest in
    ap
      (λ b.
        if b
        then failed ErrorCode.invalid_format
        else push_escaped max size (hex (hex_digit_of (byte / 16))) (hex (hex_digit_of (byte % 16)))
            more)
      (le→ltb (suc (suc (length rest))) 2 (omega arith))
    ∙ ap₂ (λ x y. push_escaped max size x y more) (hex-hex_digit_of (byte / 16) (omega (arith, h)))
        (hex-hex_digit_of (byte % 16) (omega arith))
    ∙ ap (λ b. push_decoded max size b more) {x = byte / 16 * 16 + byte % 16} (omega arith)

decode-encode_byte :
    (form : Bool) (byte max size : ℕ) (rest : List ℕ)
    → byte < 256
    → decode_from form max 0 size (encode_byte form byte ++ rest)
      ≡ push_decoded max size byte (decode_from form max 0 (size + 1) rest)
unfolding decode_from
decode-encode_byte form byte max size rest h = elim (Bool-cases (is_literal form byte)) [
  | inl l ↦ let (percent, plus) = literal-plain form byte l in rw (l, percent, plus) refl
  | inr l ↦ elim (Bool-cases (form && byte == 0x20)) [
    | inl s ↦
        let (f, e) = space-lem form byte s in
        rw (l, s)
          (subst₂
            (λ g b.
              decode_from g max 0 size (0x2B ∷ rest)
              ≡ push_decoded max size b (decode_from g max 0 (size + 1) rest))
            (sym f) (sym e) refl)
    | inr s ↦ rw (l, s) (decode-escape form byte max size rest h)
  ]
]

-- A text that fits is decoded from its encoding.
decode-encoded :
    (form : Bool) (max size : ℕ) (text : List ℕ)
    → All (λ byte. byte < 256) text
    → size + length text ≤ max
    → decode_from form max 0 size (encoded form text) ≡ value text
unfolding decode_from
decode-encoded form max size [] h k = refl
decode-encoded form max size (byte ∷ text) h k =
    decode-encode_byte form byte max size (encoded form text) h.0
    ∙ ap (push_decoded max size byte)
        (decode-encoded form max (size + 1) text h.1 (omega (arith, k)))
    ∙ ap (λ b. if b then failed ErrorCode.too_large else value (byte ∷ text))
        (lt→== size max (omega (arith, k)))

append_onto-value :
    (front : List ℕ) (r : Result (List ℕ)) (out : List ℕ)
    → append_onto front r ≡ value out
    → (rest : List ℕ) × (r ≡ value rest) × (out ≡ front ++ rest)
append_onto-value front (value rest) out e =
    (rest, refl, sym (value-injective (front ++ rest) out e))
append_onto-value front (failed _) out e = cc

-- What the encoder gives is the encoding, within the bytes that were allowed.
encode_from-encoded :
    (grows : ℕ → Bool) (form : Bool) (max size : ℕ) (text out : List ℕ)
    → size ≤ max
    → encode_from grows form max size text ≡ value out
    → (out ≡ encoded form text) × (size + length out ≤ max)
unfolding encode_from
encode_from-encoded grows form max size [] out k e =
    let same = value-injective [] out e in (sym same, omega (arith, k, ap length same))
encode_from-encoded grows form max size (byte ∷ text) out k e =
    let written = encode_byte form byte in
    let more = encode_from grows form max (size + length written) text in
    elim (Bool-cases (ltb (max - size) (length written))) [
      | inl l ↦ cc (rw l at e)
      | inr l ↦ elim (Bool-cases (grows (size + length written))) [
        | inl g ↦
            let (rest, r, o) = append_onto-value written more out (rw (l, g) at e) in
            let (same, within) =
              encode_from-encoded grows form max (size + length written) text rest
                (omega (arith, k, ltb→le (max - size) (length written) l)) r in
            (
              o ∙ ap (λ u. written ++ u) same,
              omega (arith, within, ap length o, length-append written rest),
            )
        | inr g ↦ cc (rw (l, g) at e)
      ]
    ]

pub percent_encode-encoded :
    (grows : ℕ → Bool) (form : Bool) (max : ℕ) (text out : List ℕ)
    → percent_encode_component grows text form max ≡ value out
    → (is_text text ≡ true) × (out ≡ encoded form text) × (length out ≤ max)
unfolding percent_encode_component
percent_encode-encoded grows form max text out e = elim (Bool-cases (max == 0)) [
  | inl z ↦ cc (rw z at e)
  | inr z ↦ elim (Bool-cases (is_text text)) [
    | inl w ↦
        let (same, within) =
          encode_from-encoded grows form max 0 text out (omega arith) (rw (z, w) at e) in
        (w, same, omega (arith, within))
    | inr w ↦ cc (rw (z, w) at e)
  ]
]

pub percent_decode-encoded :
    (form : Bool) (limit : ℕ) (text : List ℕ)
    → All (λ byte. byte < 256) text
    → is_text text ≡ true
    → 0 < limit
    → length text ≤ limit
    → percent_decode_component true (encoded form text) form limit ≡ value text
unfolding percent_decode_component
percent_decode-encoded form limit text b w p h =
    ap
      (λ z.
        if z
        then failed ErrorCode.invalid_argument
        else accept_text (decode_from form limit 0 0 (encoded form text)))
      {x = limit == 0} {y = false} (ground arith)
    ∙ ap accept_text (decode-encoded form limit 0 text b (omega (arith, h)))
    ∙ ap (λ z. if z then value text else failed ErrorCode.invalid_format) w

-- Text that was encoded is decoded to itself, when the decoder may give as many bytes, and the encoder
-- kept to its own limit.
pub percent_decode-encode :
    (grows : ℕ → Bool) (form : Bool) (max limit : ℕ) (text out : List ℕ)
    → All (λ byte. byte < 256) text
    → percent_encode_component grows text form max ≡ value out
    → 0 < limit
    → length text ≤ limit
    → (percent_decode_component true out form limit ≡ value text) × (length out ≤ max)
percent_decode-encode grows form max limit text out b e p h =
    let (w, same, within) = percent_encode-encoded grows form max text out e in
    (
      ap (λ o. percent_decode_component true o form limit) same
          ∙ percent_decode-encoded form limit text b w p h,
      within,
    )
