-- ===== src/Web/ResponseEncoding/Chunks.antt =====
-- What a chunk of src/Web/ResponseEncoding.cpp says of its bytes.
use server_core.Base.{
  ℕ, zero, suc, ◌+◌, ◌-◌, ◌*◌, ◌/◌, ◌%◌, ◌^◌, ◌≤◌, ◌<◌, ◌≡◌, refl, ap, ◌∙◌, Bool, true, false,
  Option, none, some, List, [], ◌∷◌, ◌++◌, arith, ltb, ◌==◌, length, not, ◌&&◌, Bool-cases,
  Option-cases, ltb→lt, ltb→le, lt→ltb, sym, inl, inr, ==_iff,
}
use native.Mathlib.Nat.{pow-suc}
use server_core.Base.Bits.{holds_below, holds_below_lem}
use server_core.Base.Text.{
  contains_byte, before, behind, contains-append, before-append, behind-append,
}
use server_core.Core.Error.{value, value-injective}
use server_core.Core.Endpoint.{is_empty, hex_digit, hex_value}
use server_core.Core.Endpoint.Printing.{hex_of, hex_text}
use server_core.Web.ResponseEncoding.{chunk_digits, chunk_tail, encode_chunk}

-- A digit in hexadecimal is read back and is not the byte that ends the line.
abbrev reads_digit : ℕ → Option ℕ → Bool
reads_digit n none = false
reads_digit n (some d) = d == n

digit_table :
    holds_below (λ n. reads_digit n (hex_digit (hex_of n)) && not (hex_of n == 0x0D)) 16 ≡ true
unfolding holds_below
digit_table = refl

digit_lem :
    (n : ℕ) (o : Option ℕ) (b : Bool)
    → (reads_digit n o && not b) ≡ true
    → (o ≡ some n) × (b ≡ false)
digit_lem n none b h = cc
digit_lem n (some d) false h = (ground (arith, h, ==_iff d n), refl)
digit_lem n (some d) true h = ground (arith, h)

hex_digit-hex_of : (n : ℕ) → n < 16 → (hex_digit (hex_of n) ≡ some n) × ((hex_of n == 0x0D) ≡ false)
hex_digit-hex_of n h = digit_lem n (hex_digit (hex_of n)) (hex_of n == 0x0D) (
    holds_below_lem (λ n. reads_digit n (hex_digit (hex_of n)) && not (hex_of n == 0x0D)) 16 n h
      digit_table)

abbrev with_digit : ℕ → Option ℕ → Option ℕ
with_digit d none = none
with_digit d (some m) = some (m * 16 + d)

hex_value-append :
    (n : ℕ) (text : List ℕ) (d : ℕ)
    → d < 16
    → hex_value n (text ++ hex_of d ∷ []) ≡ with_digit d (hex_value n text)
hex_value-append n [] d k = rw (hex_value, (hex_digit-hex_of d k).0) refl
hex_value-append n (c ∷ text) d k = elim (Option-cases (hex_digit c)) [
  | inl h ↦ rw (hex_value, h) refl
  | inr (e, h) ↦ rw (hex_value, h) (hex_value-append (n * 16 + e) text d k)
]

hex_value-one : (n : ℕ) → n < 16 → hex_value 0 (hex_of n ∷ []) ≡ some n
hex_value-one n h = hex_value-append 0 [] n h ∙ ap some (omega arith)

hex_value-hex_text : (fuel n : ℕ) → n < 16 ^ suc fuel → hex_value 0 (hex_text (suc fuel) n) ≡ some n
hex_value-hex_text zero n h =
    let small : n < 16 = omega (arith, h, pow-suc 16 0) in
    rw (lt→ltb n 16 small) (hex_value-one n small)
hex_value-hex_text (suc fuel) n h = elim (Bool-cases (ltb n 16)) [
  | inl small ↦ rw small (hex_value-one n (ltb→lt n 16 small))
  | inr large ↦
      let front = hex_value-hex_text fuel (n / 16) (omega (arith, h, pow-suc 16 (suc fuel))) in
      rw large (
        hex_value-append 0 (hex_text (suc fuel) (n / 16)) (n % 16) (omega arith)
        ∙ ap (with_digit (n % 16)) front
        ∙ ap some (omega arith))
]

hex_text-line : (fuel n : ℕ) → contains_byte 0x0D (hex_text fuel n) ≡ false
hex_text-line zero n = refl
hex_text-line (suc fuel) n = elim (Bool-cases (ltb n 16)) [
  | inl small ↦ rw (small, (hex_digit-hex_of n (ltb→lt n 16 small)).1) refl
  | inr large ↦ rw large (
      contains-append 0x0D (hex_text fuel (n / 16)) (hex_of (n % 16) ∷ [])
        (hex_text-line fuel (n / 16)) (rw ((hex_digit-hex_of (n % 16) (omega arith)).1) refl))
]

-- The four tests of the encoder, all passed.
encoded :
    (granted : Bool) (bytes : List ℕ) (max : ℕ) (wire : List ℕ)
    → encode_chunk granted bytes max ≡ value wire
    → (is_empty bytes ≡ false)
      × (length bytes ≤ max)
      × (length bytes < 2 ^ 64)
      × (chunk_digits bytes ++ 0x0D ∷ chunk_tail bytes ≡ wire)
unfolding encode_chunk
encoded granted bytes max wire h = elim (Bool-cases (is_empty bytes)) [
  | inl e ↦ cc (rw e at h)
  | inr e ↦ elim (Bool-cases (ltb max (length bytes))) [
    | inl l ↦ cc (rw (e, l) at h)
    | inr l ↦
        elim (Bool-cases (ltb (2 ^ 64 - 1 - length (chunk_digits bytes) - 4) (length bytes))) [
          | inl s ↦ cc (rw (e, l, s) at h)
          | inr s ↦ elim (Bool-cases granted) [
            | inr g ↦ cc (rw (e, l, s, g) at h)
            | inl g ↦
                let same : value (chunk_digits bytes ++ 0x0D ∷ chunk_tail bytes) ≡ value wire =
                  rw (e, l, s, g) at h in
                let room = ltb→le (2 ^ 64 - 1 - length (chunk_digits bytes) - 4) (length bytes) s in
                (
                  e,
                  ltb→le max (length bytes) l,
                  omega (arith, room),
                  value-injective (chunk_digits bytes ++ 0x0D ∷ chunk_tail bytes) wire same,
                )
          ]
        ]
  ]
]

-- The size line of a chunk that was encoded reads back as the number of its bytes, which is not zero and
-- within the limit, and the bytes stand behind the line, with an end of line behind them.
pub encode_chunk-line :
    (granted : Bool) (bytes : List ℕ) (max : ℕ) (wire : List ℕ)
    → encode_chunk granted bytes max ≡ value wire
    → (hex_value 0 (before 0x0D wire) ≡ some (length bytes))
      × (behind 0x0D wire ≡ 0x0A ∷ (bytes ++ 0x0D ∷ 0x0A ∷ []))
      × (is_empty bytes ≡ false)
      × (length bytes ≤ max)
encode_chunk-line granted bytes max wire h =
    let (there, fits, small, same) = encoded granted bytes max wire h in
    let line = hex_text-line 16 (length bytes) in
    (
      ap (λ w. hex_value 0 (before 0x0D w)) (sym same)
          ∙ ap (hex_value 0) (before-append 0x0D (chunk_digits bytes) (chunk_tail bytes) line)
          ∙ hex_value-hex_text 15 (length bytes) (omega (arith, small)),
      ap (behind 0x0D) (sym same) ∙ behind-append 0x0D (chunk_digits bytes) (chunk_tail bytes) line,
      there,
      fits,
    )
