-- ===== src/Core/Utf8/Masks.antt =====
-- The masks of the validator as arithmetic on a byte.
use server_core.Base.{
  ℕ, ◌+◌, ◌*◌, ◌/◌, ◌%◌, ◌^◌, ◌<◌, ◌≡◌, refl, ◌∙◌, ap, true, arith, bit_and, bit_or, ◌==◌, ==_iff,
}
use server_core.Base.Bits.{holds_below, holds_below_lem, bit_and_mask, bit_or-high_low}

top_bits_table : holds_below (λ b. bit_and b 0xC0 == b / 64 * 64) 256 ≡ true
unfolding holds_below
top_bits_table = refl

pub mask_C0 : (b : ℕ) → b < 256 → bit_and b 0xC0 ≡ b / 64 * 64
mask_C0 b h = (==_iff _ _).0 (holds_below_lem _ 256 b h top_bits_table)

E0_table : holds_below (λ b. bit_and b 0xE0 == b / 32 * 32) 256 ≡ true
unfolding holds_below
E0_table = refl

pub mask_E0 : (b : ℕ) → b < 256 → bit_and b 0xE0 ≡ b / 32 * 32
mask_E0 b h = (==_iff _ _).0 (holds_below_lem _ 256 b h E0_table)

F0_table : holds_below (λ b. bit_and b 0xF0 == b / 16 * 16) 256 ≡ true
unfolding holds_below
F0_table = refl

pub mask_F0 : (b : ℕ) → b < 256 → bit_and b 0xF0 ≡ b / 16 * 16
mask_F0 b h = (==_iff _ _).0 (holds_below_lem _ 256 b h F0_table)

F8_table : holds_below (λ b. bit_and b 0xF8 == b / 8 * 8) 256 ≡ true
unfolding holds_below
F8_table = refl

pub mask_F8 : (b : ℕ) → b < 256 → bit_and b 0xF8 ≡ b / 8 * 8
mask_F8 b h = (==_iff _ _).0 (holds_below_lem _ 256 b h F8_table)

pub mask_3F : (b : ℕ) → bit_and b 0x3F ≡ b % 64
mask_3F b = bit_and_mask 6 b

-- `codePoint << 6 | continuation & 0x3F`, while the code point is far below 2 ^ 26.
pub shift_in :
    (c b : ℕ) → c < 2 ^ 26 → bit_or (c * 2 ^ 6 % 2 ^ 32) (bit_and b 0x3F) ≡ c * 64 + b % 64
shift_in c b h =
    ap (λ m. bit_or (c * 2 ^ 6 % 2 ^ 32) m) (mask_3F b)
    ∙ ap (λ m. bit_or m (b % 64)) {y = c * 2 ^ 6} (omega arith)
    ∙ bit_or-high_low 6 c (b % 64) (omega arith)
