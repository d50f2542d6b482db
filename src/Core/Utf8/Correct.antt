-- ===== src/Core/Utf8/Correct.antt =====
-- The validator accepts exactly the UTF-8 forms of sequences of Unicode scalar values.
use server_core.Base.{
  ℕ, zero, suc, ◌+◌, ◌-◌, ◌*◌, ◌/◌, ◌%◌, ◌≤◌, ◌<◌, ◌≡◌, refl, sym, ap, subst, ◌∙◌, ◌⊎◌, ◌↔◌, inl,
  inr, true, Option, none, some, List, [], ◌∷◌, ◌++◌, arith, length, All, length-append,
  Option-cases,
}
use server_core.Core.Utf8.{continue, finish, round, validate, is_valid_utf8}
use server_core.Core.Utf8.Scalar.{IsByte, IsScalar, encode, encode_all}
use server_core.Core.Utf8.Round.{
  round-continue, round-none, continue_inversion, continue-more, lead_one, lead_two, lead_three,
  lead_four, lead_none,
}

abbrev Sound : ℕ → List ℕ → ℕ → List ℕ → Type 0
Sound b bytes c rest = IsScalar c × (encode c ++ rest ≡ b ∷ bytes)

-- What the last test of a round leaves.
finish_inversion :
    (s : ℕ) (o : Option (ℕ × List ℕ)) (c : ℕ) (rest : List ℕ)
    → finish s o ≡ some (c, rest)
    → (o ≡ some (c, rest)) × (s ≤ c) × IsScalar c
finish_inversion s none c rest h = absurd (cc)
finish_inversion s (some (c', rest')) c rest h = ground arith

continue-zero :
    (c d : ℕ) (bytes rest : List ℕ) → continue 0 c bytes ≡ some (d, rest) → (d ≡ c) × (rest ≡ bytes)
unfolding continue
continue-zero c d bytes rest h = ground arith

module _ (b c : ℕ) (bytes rest : List ℕ) (k : All IsByte bytes)
    (e : round b bytes ≡ some (c, rest)) where
  one-Sound : b < 0x80 → Sound b bytes c rest
  unfolding encode continue
  one-Sound h = ground (arith, round-continue b 0 b 0 bytes (lead_one b h))

  two-Sound : 0xC0 ≤ b → b < 0xE0 → Sound b bytes c rest
  unfolding encode
  two-Sound lo hi =
      let (f, small, scalar) =
        finish_inversion 0x80 (continue 1 (b - 0xC0) bytes) c rest
          (sym (round-continue b 1 (b - 0xC0) 0x80 bytes (lead_two b lo hi)) ∙ e) in
      let (x, bytes1, e1, i1, f1) =
        continue_inversion 0 (b - 0xC0) bytes (c, rest) (omega arith) k f in
      let (ec, er) = continue-zero _ c bytes1 rest f1 in ground arith

  three-Sound : 0xE0 ≤ b → b < 0xF0 → Sound b bytes c rest
  unfolding encode
  three-Sound lo hi =
      let (f, small, scalar) =
        finish_inversion 0x800 (continue 2 (b - 0xE0) bytes) c rest
          (sym (round-continue b 2 (b - 0xE0) 0x800 bytes (lead_three b lo hi)) ∙ e) in
      let (x, bytes1, e1, i1, f1) =
        continue_inversion 1 (b - 0xE0) bytes (c, rest) (omega arith) k f in
      let k1 = subst (All IsByte) e1 k in
      let (y, bytes2, e2, i2, f2) = continue_inversion 0 _ bytes1 (c, rest) (omega arith) k1.1 f1 in
      let (ec, er) = continue-zero _ c bytes2 rest f2 in ground arith

  four-Sound : 0xF0 ≤ b → b < 0xF8 → Sound b bytes c rest
  unfolding encode
  four-Sound lo hi =
      let (f, small, scalar) =
        finish_inversion 0x10000 (continue 3 (b - 0xF0) bytes) c rest
          (sym (round-continue b 3 (b - 0xF0) 0x10000 bytes (lead_four b lo hi)) ∙ e) in
      let (x, bytes1, e1, i1, f1) =
        continue_inversion 2 (b - 0xF0) bytes (c, rest) (omega arith) k f in
      let k1 = subst (All IsByte) e1 k in
      let (y, bytes2, e2, i2, f2) = continue_inversion 1 _ bytes1 (c, rest) (omega arith) k1.1 f1 in
      let k2 = subst (All IsByte) e2 k1.1 in
      let (z, bytes3, e3, i3, f3) = continue_inversion 0 _ bytes2 (c, rest) (omega arith) k2.1 f2 in
      let (ec, er) = continue-zero _ c bytes3 rest f3 in ground arith

  lead-range :
      (b < 0x80)
      ⊎ ((0xC0 ≤ b) × (b < 0xE0))
      ⊎ ((0xE0 ≤ b) × (b < 0xF0))
      ⊎ ((0xF0 ≤ b) × (b < 0xF8))
      ⊎ (((0x80 ≤ b) × (b < 0xC0)) ⊎ (0xF8 ≤ b))
  lead-range = ground arith

  round-Sound : IsByte b → Sound b bytes c rest
  round-Sound h = elim lead-range [
    | inl r ↦ one-Sound r
    | inr (inl (lo, hi)) ↦ two-Sound lo hi
    | inr (inr (inl (lo, hi))) ↦ three-Sound lo hi
    | inr (inr (inr (inl (lo, hi)))) ↦ four-Sound lo hi
    | inr (inr (inr (inr out))) ↦ absurd (cc (round-none b bytes (lead_none b h out)))
  ]

-- A round reads back the form of a scalar value.
module _ (c : ℕ) (rest : List ℕ) where
  ascii_round : c < 0x80 → round c rest ≡ some (c, rest)
  unfolding continue
  ascii_round h = round-continue c 0 c 0 rest (lead_one c h) ∙ ground arith

  two_round : 0x80 ≤ c → c < 0x800 → round (0xC0 + c / 64) ((0x80 + c % 64) ∷ rest) ≡ some (c, rest)
  two_round lo hi =
      round-continue b 1 (b - 0xC0) 0x80 (x ∷ rest) (lead_two b (omega arith) (omega arith))
      ∙ ap (finish 0x80)
          (continue-more 0 (b - 0xC0) x rest (omega arith) (omega arith) (omega arith))
      ∙ unfold continue in ground (arith, e)
    where
      b : ℕ
      b = 0xC0 + c / 64

      x : ℕ
      x = 0x80 + c % 64

      e : (b - 0xC0) * 64 + (x - 0x80) ≡ c
      e = omega arith

  three_round :
      0x800 ≤ c
      → c < 0x10000
      → IsScalar c
      → round (0xE0 + c / 4096) ((0x80 + c / 64 % 64) ∷ (0x80 + c % 64) ∷ rest) ≡ some (c, rest)
  three_round lo hi scalar =
      round-continue b 2 (b - 0xE0) 0x800 (x ∷ y ∷ rest) (lead_three b (omega arith) (omega arith))
      ∙ ap (finish 0x800) (
          continue-more 1 (b - 0xE0) x (y ∷ rest) (omega arith) (omega arith) (omega arith)
          ∙ continue-more 0 ((b - 0xE0) * 64 + (x - 0x80)) y rest (omega arith) (omega arith)
              (omega arith))
      ∙ unfold continue in ground (arith, e)
    where
      b : ℕ
      b = 0xE0 + c / 4096

      x : ℕ
      x = 0x80 + c / 64 % 64

      y : ℕ
      y = 0x80 + c % 64

      e : ((b - 0xE0) * 64 + (x - 0x80)) * 64 + (y - 0x80) ≡ c
      e = omega arith

  four_round :
      0x10000 ≤ c
      → IsScalar c
      → round
          (0xF0 + c / 262144)
          ((0x80 + c / 4096 % 64) ∷ (0x80 + c / 64 % 64) ∷ (0x80 + c % 64) ∷ rest)
        ≡ some (c, rest)
  four_round lo scalar =
      round-continue b 3 (b - 0xF0) 0x10000 (x ∷ y ∷ z ∷ rest)
        (lead_four b (omega arith) (omega arith))
      ∙ ap (finish 0x10000) (
          continue-more 2 (b - 0xF0) x (y ∷ z ∷ rest) (omega arith) (omega arith) (omega arith)
          ∙ continue-more 1 ((b - 0xF0) * 64 + (x - 0x80)) y (z ∷ rest) (omega arith) (omega arith)
              (omega arith)
          ∙ continue-more 0 (((b - 0xF0) * 64 + (x - 0x80)) * 64 + (y - 0x80)) z rest (omega arith)
              (omega arith) (omega arith))
      ∙ unfold continue in ground (arith, e)
    where
      b : ℕ
      b = 0xF0 + c / 262144

      x : ℕ
      x = 0x80 + c / 4096 % 64

      y : ℕ
      y = 0x80 + c / 64 % 64

      z : ℕ
      z = 0x80 + c % 64

      e : (((b - 0xF0) * 64 + (x - 0x80)) * 64 + (y - 0x80)) * 64 + (z - 0x80) ≡ c
      e = omega arith

  size-cases :
      IsScalar c
      → (c < 0x80) ⊎ ((0x80 ≤ c) × (c < 0x800)) ⊎ ((0x800 ≤ c) × (c < 0x10000)) ⊎ (0x10000 ≤ c)
  size-cases h = ground arith

  -- With fuel for a round, the validator passes over one encoded scalar value.
  validate-encode :
      (fuel : ℕ) → IsScalar c → validate (suc fuel) (encode c ++ rest) ≡ validate fuel rest
  unfolding validate encode
  validate-encode fuel h = elim (size-cases h) [
    | inl lo ↦ ground (arith, ascii_round lo)
    | inr (inl (lo, hi)) ↦ ground (arith, two_round lo hi)
    | inr (inr (inl (lo, hi))) ↦ ground (arith, three_round lo hi h)
    | inr (inr (inr lo)) ↦ ground (arith, four_round lo h)
  ]

length-encode_pos : (c : ℕ) → 1 ≤ length (encode c)
unfolding encode
length-encode_pos c = ground arith

validate-nil : (fuel : ℕ) → validate fuel [] ≡ true
unfolding validate
validate-nil zero = refl
validate-nil (suc fuel) = refl

validate-cons :
    (fuel b : ℕ) (bytes : List ℕ) (c : ℕ) (rest : List ℕ)
    → round b bytes ≡ some (c, rest)
    → validate (suc fuel) (b ∷ bytes) ≡ validate fuel rest
unfolding validate
validate-cons fuel b bytes c rest s = rw (s, validate)

-- As many rounds as there are scalar values accept their forms.
validate-encode_all :
    (cs : List ℕ) (fuel : ℕ)
    → All IsScalar cs
    → length cs ≤ fuel
    → validate fuel (encode_all cs) ≡ true
unfolding encode_all
validate-encode_all [] fuel h k = validate-nil fuel
validate-encode_all (c ∷ cs) zero h k = absurd (omega arith)
validate-encode_all (c ∷ cs) (suc fuel) h k =
    validate-encode c (encode_all cs) fuel h.0 ∙ validate-encode_all cs fuel h.1 (omega arith)

length-encode_all : (cs : List ℕ) → length cs ≤ length (encode_all cs)
unfolding encode_all
length-encode_all [] = omega arith
length-encode_all (c ∷ cs) =
    omega
      (arith, length-append (encode c) (encode_all cs), length-encode_pos c, length-encode_all cs)

All-suffix : (xs ys : List ℕ) → All IsByte (xs ++ ys) → All IsByte ys
All-suffix [] ys h = h
All-suffix (x ∷ xs) ys h = All-suffix xs ys h.1

abbrev IsEncoded : List ℕ → Type 0
IsEncoded text = (cs : List ℕ) × All IsScalar cs × (encode_all cs ≡ text)

validate-IsEncoded :
    (fuel : ℕ) (text : List ℕ) → All IsByte text → validate fuel text ≡ true → IsEncoded text
unfolding encode_all
validate-IsEncoded fuel [] h e = ([], tt, refl)
validate-IsEncoded zero (b ∷ bytes) h e = absurd (unfold validate in cc e)
validate-IsEncoded (suc fuel) (b ∷ bytes) h e = elim (Option-cases (round b bytes)) [
  | inl n ↦ absurd (unfold validate in ground (arith, n, e))
  | inr ((c, rest), s) ↦
      let (scalar, form) = round-Sound b c bytes rest h.1 s h.0 in
      let tail = All-suffix (encode c) rest (subst (All IsByte) (sym form) h) in
      let (cs, all, eq) =
        validate-IsEncoded fuel rest tail (sym (validate-cons fuel b bytes c rest s) ∙ e) in
      (c ∷ cs, (scalar, all), ap (λ t. encode c ++ t) eq ∙ form)
]

-- A text of bytes is accepted exactly when it is the UTF-8 form of a sequence of Unicode scalar
-- values: no overlong form, no surrogate, nothing above 0x10FFFF and no truncated form passes, and
-- every well-formed text does.
pub is_valid_utf8-IsEncoded :
    (text : List ℕ)
    → All IsByte text
    → (is_valid_utf8 text ≡ true) ↔ ((cs : List ℕ) × All IsScalar cs × (encode_all cs ≡ text))
unfolding is_valid_utf8
is_valid_utf8-IsEncoded text h = (
  validate-IsEncoded (length text) text h,
  λ (cs, all, eq).
      subst (λ t. validate (length t) t ≡ true) eq
        (validate-encode_all cs (length (encode_all cs)) all (length-encode_all cs)),
)
