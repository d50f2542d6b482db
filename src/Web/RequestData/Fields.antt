-- ===== src/Web/RequestData/Fields.antt =====
-- Fields written one after another and parsed by src/Web/RequestData.cpp.
use server_core.Base.{
  ℕ, ◌+◌, ◌/◌, ◌%◌, ◌≤◌, ◌<◌, ◌≡◌, refl, ap, ◌∙◌, ◌⊎◌, inl, inr, Bool, true, false, ◌&&◌, List, [],
  ◌∷◌, map, ◌++◌, arith, le→ltb, lt→==, ◌==◌, ==_iff, length, All, Bool-cases,
}
use server_core.Base.Text.{
  contains-append, before-append, behind-append, split_at-append, split_at-one,
}
use server_core.Core.Error.{Result, value}
use server_core.Web.RequestData.{
  FieldLimits, valid_limits, contains_byte, is_text, is_literal, hex_digit_of, encode_byte,
  split_at, is_empty, Field, first_field, parse_field, parse_from, parse_fields,
  parse_query_parameters, parse_form_url_encoded,
}
use server_core.Web.RequestData.Percent.{encoded, percent_decode-encoded}

-- The bytes that separate fields, and a fragment.
abbrev IsSeparator : ℕ → Type 0
IsSeparator byte = (byte ≡ 0x26) ⊎ (byte ≡ 0x3D) ⊎ (byte ≡ 0x23)

hex_digit_of-free :
    (separator n : ℕ) → IsSeparator separator → n < 16 → (hex_digit_of n == separator) ≡ false
hex_digit_of-free separator n s h = ground (arith, s, ==_iff (hex_digit_of n) separator)

literal-free :
    (form : Bool) (separator byte : ℕ)
    → IsSeparator separator
    → is_literal form byte ≡ true
    → (byte == separator) ≡ false
literal-free true separator byte s h = ground (arith, s, h, ==_iff byte separator)
literal-free false separator byte s h = ground (arith, s, h, ==_iff byte separator)

encode_byte-free :
    (form : Bool) (separator byte : ℕ)
    → IsSeparator separator
    → byte < 256
    → contains_byte separator (encode_byte form byte) ≡ false
encode_byte-free form separator byte s h = elim (Bool-cases (is_literal form byte)) [
  | inl l ↦ rw (l, literal-free form separator byte s l) refl
  | inr l ↦ elim (Bool-cases (form && byte == 0x20)) [
    | inl p ↦ rw (l, p) (ground (arith, s))
    | inr p ↦
        rw
          (
            l,
            p,
            hex_digit_of-free separator (byte / 16) s (omega (arith, h)),
            hex_digit_of-free separator (byte % 16) s (omega arith),
          )
          (ground (arith, s))
  ]
]

encoded-free :
    (form : Bool) (separator : ℕ) (text : List ℕ)
    → IsSeparator separator
    → All (λ byte. byte < 256) text
    → contains_byte separator (encoded form text) ≡ false
encoded-free form separator [] s h = refl
encoded-free form separator (byte ∷ text) s h =
    contains-append separator (encode_byte form byte) (encoded form text)
      (encode_byte-free form separator byte s h.0) (encoded-free form separator text s h.1)

-- How fields are written.
abbrev pub written : Bool → Field → List ℕ
written form (name, text) = encoded form name ++ 0x3D ∷ encoded form text

abbrev pub joined : Bool → List Field → List ℕ
joined form [] = []
joined form (field ∷ []) = written form field
joined form (field ∷ next ∷ fields) = written form field ++ 0x26 ∷ joined form (next ∷ fields)

pub record Fits (limits : FieldLimits) (field : Field) : Type 0 where
  pub name_bytes : All (λ byte. byte < 256) field.0
  pub text_bytes : All (λ byte. byte < 256) field.1
  pub name_text : is_text field.0 ≡ true
  pub text_text : is_text field.1 ≡ true
  pub short_name : length field.0 ≤ limits.max_name_bytes
  pub short_text : length field.1 ≤ limits.max_value_bytes

hash-written :
    (form : Bool) (limits : FieldLimits) (field : Field)
    → Fits limits field
    → contains_byte 0x23 (written form field) ≡ false
hash-written form limits (name, text) f =
    contains-append 0x23 (encoded form name) (0x3D ∷ encoded form text)
      (encoded-free form 0x23 name (inr (inr refl)) f.name_bytes)
      (encoded-free form 0x23 text (inr (inr refl)) f.text_bytes)

is_empty-written : (form : Bool) (field : Field) → is_empty (written form field) ≡ false
is_empty-written form (name, text) = go (encoded form name)
  where
    go : (front : List ℕ) → is_empty (front ++ 0x3D ∷ encoded form text) ≡ false
    go [] = refl
    go (x ∷ front) = refl

written-free :
    (form : Bool) (limits : FieldLimits) (field : Field)
    → Fits limits field
    → contains_byte 0x26 (written form field) ≡ false
written-free form limits (name, text) f =
    contains-append 0x26 (encoded form name) (0x3D ∷ encoded form text)
      (encoded-free form 0x26 name (inl refl) f.name_bytes)
      (encoded-free form 0x26 text (inl refl) f.text_bytes)

parse-written :
    (form : Bool) (limits : FieldLimits) (field : Field) (rest : Result (List Field))
    → 0 < limits.max_name_bytes
    → 0 < limits.max_value_bytes
    → Fits limits field
    → parse_field true form limits (written form field) rest ≡ first_field field rest
unfolding parse_field
parse-written form limits (name, text) rest p q f =
    let free = encoded-free form 0x3D name (inr (inl refl)) f.name_bytes in
    rw
      (
        before-append 0x3D (encoded form name) (encoded form text) free,
        behind-append 0x3D (encoded form name) (encoded form text) free,
        percent_decode-encoded form limits.max_name_bytes name f.name_bytes f.name_text p
            f.short_name,
        percent_decode-encoded form limits.max_value_bytes text f.text_bytes f.text_text q
            f.short_text,
      )
      refl

split-joined :
    (form : Bool) (limits : FieldLimits) (field : Field) (fields : List Field)
    → All (Fits limits) (field ∷ fields)
    → split_at 0x26 (joined form (field ∷ fields)) ≡ map (written form) (field ∷ fields)
split-joined form limits field [] f =
    split_at-one 0x26 (written form field) (written-free form limits field f.0)
split-joined form limits field (next ∷ fields) f =
    split_at-append 0x26 (written form field) (joined form (next ∷ fields))
      (written-free form limits field f.0)
    ∙ ap (λ t. written form field ∷ t) (split-joined form limits next fields f.1)

parse_from-written :
    (form : Bool) (limits : FieldLimits) (count : ℕ) (fields : List Field)
    → 0 < limits.max_name_bytes
    → 0 < limits.max_value_bytes
    → count + length fields ≤ limits.max_fields
    → All (Fits limits) fields
    → parse_from true form limits count (map (written form) fields) ≡ value fields
unfolding parse_from
parse_from-written form limits count [] p q h f = refl
parse_from-written form limits count (field ∷ fields) p q h f =
    rw (is_empty-written form field, lt→== count limits.max_fields (omega (arith, h)))
      (parse-written form limits field _ p q f.0
        ∙ ap (first_field field)
            (parse_from-written form limits (count + 1) fields p q (omega (arith, h)) f.1))

-- What the valid limits allow.
pub valid_limits-positive :
    (limits : FieldLimits)
    → valid_limits limits ≡ true
    → (0 < limits.max_name_bytes) × (0 < limits.max_value_bytes)
valid_limits-positive limits h =
    ground (arith, h, ==_iff limits.max_name_bytes 0, ==_iff limits.max_value_bytes 0)

parse_from-nothing :
    (form : Bool) (limits : FieldLimits)
    → parse_from true form limits 0 (split_at 0x26 []) ≡ value []
unfolding parse_from split_at
parse_from-nothing form limits = refl

parse_fields-joined :
    (form : Bool) (limits : FieldLimits) (fields : List Field)
    → valid_limits limits ≡ true
    → length (joined form fields) ≤ limits.max_bytes
    → length fields ≤ limits.max_fields
    → All (Fits limits) fields
    → parse_fields true (joined form fields) form limits ≡ value fields
unfolding parse_fields
parse_fields-joined form limits fields v small few f =
    rw (v, le→ltb limits.max_bytes (length (joined form fields)) small) (go fields few f)
  where
    go :
        (fields : List Field)
        → length fields ≤ limits.max_fields
        → All (Fits limits) fields
        → parse_from true form limits 0 (split_at 0x26 (joined form fields)) ≡ value fields
    go [] few f = parse_from-nothing form limits
    go (field ∷ fields) few f =
        let (p, q) = valid_limits-positive limits v in
        rw (split-joined form limits field fields f)
          (parse_from-written form limits 0 (field ∷ fields) p q (omega (arith, few)) f)

hash-joined :
    (form : Bool) (limits : FieldLimits) (fields : List Field)
    → All (Fits limits) fields
    → contains_byte 0x23 (joined form fields) ≡ false
hash-joined form limits [] f = refl
hash-joined form limits (field ∷ []) f = hash-written form limits field f.0
hash-joined form limits (field ∷ next ∷ fields) f =
    contains-append 0x23 (written form field) (0x26 ∷ joined form (next ∷ fields))
      (hash-written form limits field f.0) (hash-joined form limits (next ∷ fields) f.1)

-- Fields that keep to valid limits, written with each name and text percent-encoded, are parsed back in
-- their order, duplicates included: from the body of a form, and from the query of a request target
-- whose path holds no question mark and no fragment.
pub parse-joined :
    (limits : FieldLimits) (path : List ℕ) (fields : List Field)
    → valid_limits limits ≡ true
    → length (joined true fields) ≤ limits.max_bytes
    → length (joined false fields) ≤ limits.max_bytes
    → length fields ≤ limits.max_fields
    → All (Fits limits) fields
    → contains_byte 0x3F path ≡ false
    → contains_byte 0x23 path ≡ false
    → (parse_form_url_encoded true (joined true fields) limits ≡ value fields)
      × (parse_query_parameters true (path ++ 0x3F ∷ joined false fields) limits ≡ value fields)
unfolding parse_form_url_encoded parse_query_parameters
parse-joined limits path fields v small short few f question hash = (
  parse_fields-joined true limits fields v small few f,
  rw
      (
        contains-append 0x23 path (0x3F ∷ joined false fields) hash
            (hash-joined false limits fields f),
        behind-append 0x3F path (joined false fields) question,
      )
      (parse_fields-joined false limits fields v short few f),
)
