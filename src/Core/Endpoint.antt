-- ===== src/Core/Endpoint.antt =====
-- src/Core/Endpoint.cpp: addresses, endpoints and networks. Text is its bytes. `std::to_string`,
-- `std::to_chars` and `std::from_chars` are written out: numbers in decimal or in hexadecimal digits of
-- lower case, and a parse that fails where the number does not fit its type.
pub mod Printing
pub mod RoundTrip
use server_core.Base.{
  ℕ, zero, suc, ◌+◌, ◌-◌, ◌*◌, ◌/◌, ◌%◌, ◌^◌, ◌≡◌, Bool, true, false, not, ◌&&◌, ◌||◌, Option, none,
  some, List, [], ◌∷◌, ◌++◌, bit_and, ltb, leb, ◌==◌, if◌then◌else◌, length, get_or, take, drop,
  replicate,
}
use server_core.Base.Text.{contains_byte, before, behind, split_at}

pub data IpFamily : Type 0 where
  unspecified v4 v6 : IpFamily

abbrev pub same_family : IpFamily → IpFamily → Bool
same_family unspecified unspecified = true
same_family v4 v4 = true
same_family v6 v6 = true
same_family _ _ = false

-- The bytes are 16, of which an address of version 4 uses the first four.
pub record IpAddress : Type 0 where
  pub family : IpFamily
  pub bytes : List ℕ
  pub scope : ℕ

abbrev pub size_of : IpFamily → ℕ
size_of unspecified = 0
size_of v4 = 4
size_of v6 = 16

-- `Bytes`
abbrev pub bytes_of : IpAddress → List ℕ
bytes_of a = take (size_of a.family) a.bytes

abbrev pub is_valid_address : IpAddress → Bool
is_valid_address a = not (same_family a.family unspecified)

abbrev pub dot : ℕ
dot = 0x2E

abbrev pub colon : ℕ
colon = 0x3A

abbrev pub all_digits : List ℕ → Bool
all_digits [] = true
all_digits (byte ∷ text) = leb 0x30 byte && leb byte 0x39 && all_digits text

abbrev pub digits_value : ℕ → List ℕ → ℕ
digits_value n [] = n
digits_value n (byte ∷ text) = digits_value (n * 10 + (byte - 0x30)) text

abbrev pub is_empty {ℓ} : {A : Type ℓ} → List A → Bool
is_empty [] = true
is_empty (x ∷ xs) = false

-- `Decimal` into 32 bits.
abbrev pub decimal : List ℕ → Option ℕ
decimal text =
    if is_empty text || not (all_digits text) || leb (2 ^ 32) (digits_value 0 text)
    then none
    else some (digits_value 0 text)

abbrev pub leading_zero : List ℕ → Bool
leading_zero [] = false
leading_zero (byte ∷ []) = false
leading_zero (byte ∷ next ∷ text) = byte == 0x30

abbrev pub at_most : ℕ → Option ℕ → Option ℕ
at_most limit none = none
at_most limit (some n) = if ltb limit n then none else some n

-- One part of an address of version 4.
abbrev pub octet : List ℕ → Option ℕ
octet part = if ltb 3 (length part) || leading_zero part then none else at_most 255 (decimal part)

abbrev pub cons_some : Option ℕ → Option (List ℕ) → Option (List ℕ)
cons_some (some n) (some ns) = some (n ∷ ns)
cons_some _ _ = none

-- `count` parts, and nothing behind them.
abbrev pub octets : ℕ → List (List ℕ) → Option (List ℕ)
octets zero [] = some []
octets zero (part ∷ parts) = none
octets (suc count) [] = none
octets (suc count) (part ∷ parts) = cons_some (octet part) (octets count parts)

-- `V4`
unfoldable pub v4_bytes : List ℕ → Option (List ℕ)
unfolding split_at
v4_bytes text = octets 4 (split_at dot text)

abbrev pub hex_digit : ℕ → Option ℕ
hex_digit digit =
    if leb 0x30 digit && leb digit 0x39
    then some (digit - 0x30)
    else if leb 0x61 digit && leb digit 0x66
    then some (digit - 0x61 + 10)
    else if leb 0x41 digit && leb digit 0x46
    then some (digit - 0x41 + 10)
    else none

abbrev pub hex_value : ℕ → List ℕ → Option ℕ
hex_value n [] = some n
hex_value n (digit ∷ part) = elim (hex_digit digit) [
  | none ↦ none
  | some d ↦ hex_value (n * 16 + d) part
]

-- The last part, an address of version 4, makes two words.
abbrev pub v4_words : Option (List ℕ) → Option (List ℕ)
v4_words (some (a ∷ b ∷ c ∷ d ∷ [])) = some ((a * 256 + b) ∷ (c * 256 + d) ∷ [])
v4_words _ = none

-- The loop of `Words` over the parts between colons, with `count` words written.
unfoldable pub words_from : Bool → ℕ → List (List ℕ) → Option (List ℕ)
unfolding v4_bytes
words_from allow_v4 count [] = some []
words_from allow_v4 count (part ∷ parts) =
    let more = words_from allow_v4 (count + 1) parts in
    if is_empty part || count == 8
    then none
    else if contains_byte dot part
    then if not allow_v4 || not (is_empty parts) || ltb 6 count
      then none
      else v4_words (v4_bytes part)
    else if ltb 4 (length part)
    then none
    else cons_some (hex_value 0 part) more

unfoldable pub words : Bool → List ℕ → Option (List ℕ)
unfolding words_from split_at
words allow_v4 [] = some []
words allow_v4 (byte ∷ text) = words_from allow_v4 0 (split_at colon (byte ∷ text))

-- What stands in front of the first "::", and behind it.
unfoldable pub find_gap : List ℕ → Option (List ℕ × List ℕ)
find_gap [] = none
find_gap (byte ∷ []) = none
find_gap (byte ∷ next ∷ text) = elim (byte == colon && next == colon) [
  | true ↦ some ([], text)
  | false ↦ elim (find_gap (next ∷ text)) [
    | none ↦ none
    | some (front, back) ↦ some (byte ∷ front, back)
  ]
]

abbrev pub exactly_eight : Option (List ℕ) → Option (List ℕ)
exactly_eight none = none
exactly_eight (some ws) = if length ws == 8 then some ws else none

abbrev pub filled : Option (List ℕ) → Option (List ℕ) → Option (List ℕ)
filled (some left) (some right) =
    if leb 8 (length left + length right)
    then none
    else some (left ++ replicate (8 - length left - length right) 0 ++ right)
filled _ _ = none

-- The eight words of an address of version 6 without its zone.
unfoldable pub v6_words : List ℕ → Option (List ℕ)
unfolding words find_gap
v6_words text = elim (find_gap text) [
  | none ↦ exactly_eight (words true text)
  | some (front, back) ↦ elim (find_gap back) [
    | some again ↦ none
    | none ↦ filled (words false front) (words true back)
  ]
]

abbrev pub word_bytes : List ℕ → List ℕ
word_bytes [] = []
word_bytes (w ∷ ws) = (w / 256) ∷ (w % 256) ∷ word_bytes ws

abbrev pub v4_address : Option (List ℕ) → Option IpAddress
v4_address none = none
v4_address (some bs) = some (record { family = v4; bytes = bs ++ replicate 12 0; scope = 0 })

abbrev pub v6_address : Option ℕ → Option (List ℕ) → Option IpAddress
v6_address (some scope) (some ws) =
    some (record { family = v6; bytes = word_bytes ws; scope = scope })
v6_address _ _ = none

abbrev pub zone : List ℕ → Option ℕ
zone text = if contains_byte 0x25 text then decimal (behind 0x25 text) else some 0

-- `IpAddress::Parse`; `none` is InvalidArgument.
unfoldable pub parse_address : List ℕ → Option IpAddress
unfolding v4_bytes v6_words
parse_address text =
    if is_empty text || ltb 64 (length text)
    then none
    else if not (contains_byte colon text)
    then v4_address (v4_bytes text)
    else v6_address (zone text) (v6_words (before 0x25 text))

-- `IpAddress::FromBytes`
unfoldable pub from_bytes : IpFamily → List ℕ → ℕ → Option IpAddress
from_bytes unspecified bytes scope = none
from_bytes v4 bytes scope =
    if not (length bytes == 4) || not (scope == 0)
    then none
    else some (record { family = v4; bytes = bytes ++ replicate 12 0; scope = scope })
from_bytes v6 bytes scope =
    if not (length bytes == 16)
    then none
    else some (record { family = v6; bytes = bytes; scope = scope })

abbrev pub all_zero : List ℕ → Bool
all_zero [] = true
all_zero (byte ∷ bytes) = byte == 0 && all_zero bytes

abbrev pub is_v4_mapped : IpAddress → Bool
is_v4_mapped a =
    same_family a.family v6
    && all_zero (take 10 a.bytes)
    && get_or a.bytes 10 0 == 255
    && get_or a.bytes 11 0 == 255

unfoldable pub normalized : IpAddress → IpAddress
normalized a =
    if not (is_v4_mapped a) || not (a.scope == 0)
    then a
    else record { family = v4; bytes = take 4 (drop 12 a.bytes) ++ replicate 12 0; scope = 0 }
