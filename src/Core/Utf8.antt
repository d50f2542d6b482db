-- ===== src/Core/Utf8.antt =====
-- `IsValidUtf8` of src/Core/Utf8.cpp, over the bytes that are left to read. The code point is a
-- `std::uint32_t`.
pub mod Scalar
pub mod Masks
pub mod Round
pub mod Correct
use server_core.Base.{
  ℕ, zero, suc, ◌*◌, ◌%◌, ◌^◌, ◌<◌, Bool, true, false, Option, none, some, List, [], ◌∷◌, ltb, leb,
  ◌==◌, ◌&&◌, ◌||◌, if◌then◌else◌, length, bit_and, bit_or,
}

abbrev pub maximum_code_point : ℕ
maximum_code_point = 0x10FFFF

abbrev pub first_surrogate : ℕ
first_surrogate = 0xD800

abbrev pub last_surrogate : ℕ
last_surrogate = 0xDFFF

pub record Lead : Type 0 where
  pub continuation_count : ℕ
  pub code_point : ℕ
  pub smallest : ℕ

-- What the lead byte announces.
pub read_lead : ℕ → Option Lead
read_lead lead =
    if ltb lead 0x80
    then some (record { continuation_count = 0; code_point = lead; smallest = 0 })
    else if bit_and lead 0xE0 == 0xC0
    then some (record { continuation_count = 1; code_point = bit_and lead 0x1F; smallest = 0x80 })
    else if bit_and lead 0xF0 == 0xE0
    then some (record { continuation_count = 2; code_point = bit_and lead 0x0F; smallest = 0x800 })
    else if bit_and lead 0xF8 == 0xF0
    then some
        (record { continuation_count = 3; code_point = bit_and lead 0x07; smallest = 0x10000 })
    else none

-- The inner loop: `none` is a byte that continues nothing.
pub continue : ℕ → ℕ → List ℕ → Option (ℕ × List ℕ)
continue zero code_point rest = some (code_point, rest)
continue (suc count) code_point [] = none
continue (suc count) code_point (byte ∷ rest) =
    let more = continue count (bit_or (code_point * 2 ^ 6 % 2 ^ 32) (bit_and byte 0x3F)) rest in
    if bit_and byte 0xC0 == 0x80 then more else none

-- The test at the end of a round.
abbrev pub rejects : ℕ → ℕ → Bool
rejects smallest code_point =
    ltb code_point smallest
    || (leb first_surrogate code_point && leb code_point last_surrogate)
    || ltb maximum_code_point code_point

abbrev pub finish : ℕ → Option (ℕ × List ℕ) → Option (ℕ × List ℕ)
finish smallest none = none
finish smallest (some (code_point, rest)) =
    if rejects smallest code_point then none else some (code_point, rest)

abbrev pub read_rest : Option Lead → List ℕ → Option (ℕ × List ℕ)
read_rest none rest = none
read_rest (some l) rest =
    if ltb 0 l.continuation_count && ltb (length rest) l.continuation_count
    then none
    else finish l.smallest (continue l.continuation_count l.code_point rest)

-- One round of the outer loop: the code point and the bytes behind it, or `return false`.
pub round : ℕ → List ℕ → Option (ℕ × List ℕ)
unfolding read_lead continue
round lead rest = read_rest (read_lead lead) rest

-- Every round takes a byte at least, so as many rounds as there are bytes are enough.
pub validate : ℕ → List ℕ → Bool
validate fuel [] = true
validate zero (lead ∷ rest) = false
validate (suc fuel) (lead ∷ rest) = elim (round lead rest) [
  | none ↦ false
  | some (code_point, rest') ↦ validate fuel rest'
]

unfoldable pub is_valid_utf8 : List ℕ → Bool
unfolding validate round
is_valid_utf8 text = validate (length text) text
