-- ===== src/Core/Endpoint/RoundTrip.antt =====
-- An address of version 4 that is written and parsed again.
use server_core.Base.{
  ℕ, ◌≤◌, ◌<◌, ◌≡◌, refl, ap, ap₂, ◌∙◌, Bool, true, false, not, ◌&&◌, Option, none, some, List, [],
  ◌∷◌, ◌++◌, arith, leb, le→ltb, ◌==◌, ==_iff, length, length-append, replicate,
}
use server_core.Base.Bits.{holds_below, holds_below_lem}
use server_core.Base.Text.{contains_byte, split_at, contains-append, split_at-append, split_at-one}
use server_core.Core.Endpoint.{
  v4, IpAddress, dot, colon, is_empty, octet, cons_some, octets, v4_bytes, v4_address,
  parse_address,
}
use server_core.Core.Endpoint.Printing.{decimal_text, v4_text, address_text}

abbrev is_number : ℕ → Option ℕ → Bool
is_number n none = false
is_number n (some m) = m == n

-- A byte in decimal: it is read back, holds neither dot nor colon, and has one to three digits.
abbrev is_written : ℕ → Bool
is_written b =
    is_number b (octet (decimal_text 3 b))
    && not (contains_byte dot (decimal_text 3 b))
    && not (contains_byte colon (decimal_text 3 b))
    && not (is_empty (decimal_text 3 b))
    && leb (length (decimal_text 3 b)) 3

written_table : holds_below is_written 256 ≡ true
unfolding holds_below
written_table = refl

record IsWritten (b : ℕ) : Type 0 where
  pub read : octet (decimal_text 3 b) ≡ some b
  pub dotless : contains_byte dot (decimal_text 3 b) ≡ false
  pub plain : contains_byte colon (decimal_text 3 b) ≡ false
  pub there : is_empty (decimal_text 3 b) ≡ false
  pub short : length (decimal_text 3 b) ≤ 3

is_number_lem : (n : ℕ) (o : Option ℕ) → is_number n o ≡ true → o ≡ some n
is_number_lem n none h = cc
is_number_lem n (some m) h = ap some ((==_iff m n).0 h)

five :
    (a b c d e : Bool)
    → (a && not b && not c && not d && e) ≡ true
    → (a ≡ true) × (b ≡ false) × (c ≡ false) × (d ≡ false) × (e ≡ true)
five true false false false true h = (refl, refl, refl, refl, refl)
five true false false false false h = cc
five true false false true e h = cc
five true false true d e h = cc
five true true c d e h = cc
five false b c d e h = cc

leb_lem : (m n : ℕ) → leb m n ≡ true → m ≤ n
leb_lem m n h = ground arith

decimal_text-IsWritten : (b : ℕ) → b < 256 → IsWritten b
decimal_text-IsWritten b h =
    let text = decimal_text 3 b in
    let (read, dotless, plain, there, short) =
      five (is_number b (octet text)) (contains_byte dot text) (contains_byte colon text)
        (is_empty text) (leb (length text) 3) (holds_below_lem is_written 256 b h written_table) in
    record {
      read = is_number_lem b (octet text) read;
      dotless = dotless;
      plain = plain;
      there = there;
      short = leb_lem (length text) 3 short;
    }

module _ (a b c d : ℕ) (wa : IsWritten a) (wb : IsWritten b) (wc : IsWritten c)
    (wd : IsWritten d) where
  abbrev text : List ℕ
  text = v4_text (a ∷ b ∷ c ∷ d ∷ [])

  split-text :
      split_at dot text
      ≡ decimal_text 3 a ∷ decimal_text 3 b ∷ decimal_text 3 c ∷ decimal_text 3 d ∷ []
  split-text =
      split_at-append dot (decimal_text 3 a) (v4_text (b ∷ c ∷ d ∷ [])) wa.dotless
      ∙ ap (λ t. decimal_text 3 a ∷ t)
          (split_at-append dot (decimal_text 3 b) (v4_text (c ∷ d ∷ [])) wb.dotless
            ∙ ap (λ t. decimal_text 3 b ∷ t)
                (split_at-append dot (decimal_text 3 c) (v4_text (d ∷ [])) wc.dotless
                  ∙ ap (λ t. decimal_text 3 c ∷ t)
                      (split_at-one dot (decimal_text 3 d) wd.dotless)))

  v4_bytes-text : v4_bytes text ≡ some (a ∷ b ∷ c ∷ d ∷ [])
  unfolding v4_bytes
  v4_bytes-text =
      ap (octets 4) split-text
      ∙ ap₂ cons_some wa.read
          (ap₂ cons_some wb.read (ap₂ cons_some wc.read (ap₂ cons_some wd.read refl)))

  colon-text : contains_byte colon text ≡ false
  colon-text = contains-append colon (decimal_text 3 a) (dot ∷ v4_text (b ∷ c ∷ d ∷ [])) wa.plain (
      contains-append colon (decimal_text 3 b) (dot ∷ v4_text (c ∷ d ∷ [])) wb.plain
        (contains-append colon (decimal_text 3 c) (dot ∷ v4_text (d ∷ [])) wc.plain wd.plain))

  length-text : length text ≤ 64
  length-text = omega (
    arith,
    length-append (decimal_text 3 a) (dot ∷ v4_text (b ∷ c ∷ d ∷ [])),
    length-append (decimal_text 3 b) (dot ∷ v4_text (c ∷ d ∷ [])),
    length-append (decimal_text 3 c) (dot ∷ v4_text (d ∷ [])),
    wa.short,
    wb.short,
    wc.short,
    wd.short,
  )

  text_there : is_empty text ≡ false
  text_there = go (decimal_text 3 a)
    where
      go : (front : List ℕ) → is_empty (front ++ dot ∷ v4_text (b ∷ c ∷ d ∷ [])) ≡ false
      go [] = refl
      go (x ∷ front) = refl

  parse-text :
      parse_address text
      ≡ some (record { family = v4; bytes = a ∷ b ∷ c ∷ d ∷ replicate 12 0; scope = 0 })
  unfolding parse_address
  parse-text =
      rw (text_there, le→ltb 64 (length text) length-text, colon-text) (ap v4_address v4_bytes-text)

-- An address of version 4 that is written by ToString is parsed back.
pub parse_address-v4 :
    (a b c d : ℕ)
    → a < 256
    → b < 256
    → c < 256
    → d < 256
    → let address : IpAddress = record {
      family = v4;
      bytes = a ∷ b ∷ c ∷ d ∷ replicate 12 0;
      scope = 0;
    } in
      parse_address (address_text address) ≡ some address
unfolding address_text
parse_address-v4 a b c d ha hb hc hd =
    parse-text a b c d (decimal_text-IsWritten a ha) (decimal_text-IsWritten b hb)
      (decimal_text-IsWritten c hc) (decimal_text-IsWritten d hd)
