-- ===== src/Core/Utf8/Round.antt =====
-- One round of the validator: which lead bytes and continuation bytes it takes, and what it reads.
use server_core.Base.{
  ℕ, zero, suc, ◌+◌, ◌-◌, ◌*◌, ◌%◌, ◌^◌, ◌≤◌, ◌<◌, ◌≡◌, ◌⊎◌, inl, inr, true, Option, none, some,
  List, [], ◌∷◌, arith, length, bit_and, bit_or, ◌==◌, All, refl, sym, ◌∙◌,
}
use server_core.Base.Bits.{bit_and_mask}
use server_core.Core.Utf8.{Lead, read_lead, finish, continue, round}
use server_core.Core.Utf8.Scalar.{IsByte}
use server_core.Core.Utf8.Masks.{mask_C0, mask_E0, mask_F0, mask_F8, shift_in}

abbrev pub lead : ℕ → ℕ → ℕ → Option Lead
lead n c s = some (record { continuation_count = n; code_point = c; smallest = s })

-- The classes of lead bytes.
module _ (b : ℕ) where
  pub lead_one : b < 0x80 → read_lead b ≡ lead 0 b 0
  unfolding read_lead
  lead_one hi = ground arith

  pub lead_two : 0xC0 ≤ b → b < 0xE0 → read_lead b ≡ lead 1 (b - 0xC0) 0x80
  unfolding read_lead
  lead_two lo hi = ground (arith, mask_E0 b, bit_and_mask 5 b)

  pub lead_three : 0xE0 ≤ b → b < 0xF0 → read_lead b ≡ lead 2 (b - 0xE0) 0x800
  unfolding read_lead
  lead_three lo hi = ground (arith, mask_E0 b, mask_F0 b, bit_and_mask 4 b)

  pub lead_four : 0xF0 ≤ b → b < 0xF8 → read_lead b ≡ lead 3 (b - 0xF0) 0x10000
  unfolding read_lead
  lead_four lo hi = ground (arith, mask_E0 b, mask_F0 b, mask_F8 b, bit_and_mask 3 b)

  pub lead_none : IsByte b → (0x80 ≤ b) × (b < 0xC0) ⊎ (0xF8 ≤ b) → read_lead b ≡ none
  unfolding read_lead
  lead_none h out = ground (arith, mask_E0 b, mask_F0 b, mask_F8 b)

-- A continuation byte adds its six low bits; any other ends the text as malformed.
pub continue-more :
    (n c b : ℕ) (rest : List ℕ)
    → c < 2 ^ 26
    → 0x80 ≤ b
    → b < 0xC0
    → continue (suc n) c (b ∷ rest) ≡ continue n (c * 64 + (b - 0x80)) rest
unfolding continue
continue-more n c b rest h lo hi = rw (shift_in c b h, low, top)
  where
    low : b % 64 ≡ b - 0x80
    low = omega arith

    top : (bit_and b 0xC0 == 0x80) ≡ true
    top = ground (arith, mask_C0 b)

continue-stop :
    (n c b : ℕ) (rest : List ℕ)
    → IsByte b
    → (b < 0x80) ⊎ (0xC0 ≤ b)
    → continue (suc n) c (b ∷ rest) ≡ none
unfolding continue
continue-stop n c b rest h out = ground (arith, mask_C0 b h)

continue_short : (n c : ℕ) (rest : List ℕ) → length rest < n → continue n c rest ≡ none
unfolding continue
continue_short zero c rest h = absurd (omega arith)
continue_short (suc n) c [] h = refl
continue_short (suc n) c (b ∷ rest) h =
    ground (arith, continue_short n (bit_or (c * 2 ^ 6 % 2 ^ 32) (bit_and b 0x3F)) rest)

-- The length test of a round only anticipates what the loop would find.
pub round-continue :
    (b n c s : ℕ) (bytes : List ℕ)
    → read_lead b ≡ lead n c s
    → round b bytes ≡ finish s (continue n c bytes)
unfolding round
round-continue b n c s bytes e = rw e (ground (arith, continue_short n c bytes))

pub round-none : (b : ℕ) (bytes : List ℕ) → read_lead b ≡ none → round b bytes ≡ none
unfolding round
round-none b bytes e = rw e

abbrev pub IsContinuation : ℕ → Type 0
IsContinuation b = (0x80 ≤ b) × (b < 0xC0)

IsContinuation-cases : (b : ℕ) → IsContinuation b ⊎ ((b < 0x80) ⊎ (0xC0 ≤ b))
IsContinuation-cases b = grind arith

-- A loop that ends well has read a continuation byte first.
pub continue_inversion :
    (n c : ℕ) (bytes : List ℕ) (r : ℕ × List ℕ)
    → c < 2 ^ 26
    → All IsByte bytes
    → continue (suc n) c bytes ≡ some r
    → (b : ℕ) × (rest : List ℕ) × (bytes ≡ b ∷ rest)
      × IsContinuation b
      × (continue n (c * 64 + (b - 0x80)) rest ≡ some r)
continue_inversion n c [] r h k e = absurd (unfold continue in cc e)
continue_inversion n c (b ∷ rest) r h k e = elim (IsContinuation-cases b) [
  | inl i ↦ (b, rest, refl, i, sym (continue-more n c b rest h i.0 i.1) ∙ e)
  | inr out ↦ absurd (cc (continue-stop n c b rest k.0 out, e))
]
