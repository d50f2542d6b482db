-- ===== src/Web/Cookies/Bytes.antt =====
-- The bytes that `SerializeSetCookie` of src/Web/RequestData.cpp writes.
use server_core.Base.{
  ℕ, zero, suc, ◌+◌, ◌-◌, ◌/◌, ◌%◌, ◌≤◌, ◌<◌, ◌≡◌, refl, sym, ap, ◌∙◌, inl, inr, Bool, true, false,
  ◌&&◌, ◌||◌, Option, none, some, List, [], ◌∷◌, ◌++◌, append_assoc, append-nil, arith, ltb, ltb→le,
  ltb→lt, leb, ◌==◌, length, length-append, Bool-cases,
}
use server_core.Base.Integers.{ℤ}
use server_core.Core.Error.{value, value-injective}
use server_core.Web.RequestData.{onto_first, split_at, is_empty}
use server_core.Web.Cookies.{
  all_bytes, token_byte, cookie_byte, CookieSameSite, unspecified, lax, strict, none_site,
  label_byte, valid_label, valid_labels, without_dot, valid_domain, path_byte, decimal_from,
  at_least_zero, domain_text, path_text, age_text, secure_text, http_only_text, same_site_text,
  append_all,
}
use server_core.Web.Cookies.Parsing.{all_bytes-append}

abbrev pub flat : List (List ℕ) → List ℕ
flat [] = []
flat (text ∷ texts) = text ++ flat texts

pub append_all-flat :
    (grows : ℕ → Bool) (max : ℕ) (result : List ℕ) (texts : List (List ℕ)) (out : List ℕ)
    → length result ≤ max
    → append_all grows max result texts ≡ value out
    → (out ≡ result ++ flat texts) × (length out ≤ max)
unfolding append_all
append_all-flat grows max result [] out h e =
    let same = value-injective result out e in
    (sym same ∙ sym (append-nil result), omega (arith, h, ap length same))
append_all-flat grows max result (text ∷ texts) out h e =
    elim (Bool-cases (ltb (max - length result) (length text))) [
      | inl l ↦ cc (rw l at e)
      | inr l ↦ elim (Bool-cases (grows (length result + length text))) [
        | inl g ↦
            let (same, within) =
              append_all-flat grows max (result ++ text) texts out
                (omega (
                  arith,
                  h,
                  length-append result text,
                  ltb→le (max - length result) (length text) l,
                ))
                (rw (l, g) at e) in
            (same ∙ append_assoc result text (flat texts), within)
        | inr g ↦ cc (rw (l, g) at e)
      ]
    ]

-- A byte that can stand in a header: no control byte.
abbrev pub printable : ℕ → Bool
printable byte = leb 0x20 byte && leb byte 0x7E

pub token_byte-printable : (byte : ℕ) → token_byte byte ≡ true → printable byte ≡ true
token_byte-printable byte h = ground (arith, h)

pub cookie_byte-printable : (byte : ℕ) → cookie_byte byte ≡ true → printable byte ≡ true
cookie_byte-printable byte h = ground (arith, h)

pub path_byte-printable : (byte : ℕ) → path_byte byte ≡ true → printable byte ≡ true
path_byte-printable byte h = ground (arith, h)

abbrev pub domain_byte : ℕ → Bool
domain_byte byte = label_byte byte || byte == 0x2E

pub domain_byte-printable : (byte : ℕ) → domain_byte byte ≡ true → printable byte ≡ true
domain_byte-printable byte h = ground (arith, h)

valid_label-bytes : (label : List ℕ) → valid_label label ≡ true → all_bytes label_byte label ≡ true
valid_label-bytes label h = ground (arith, h)

abbrev label_bytes : List (List ℕ) → Bool
label_bytes [] = true
label_bytes (label ∷ labels) = all_bytes label_byte label && label_bytes labels

valid_labels-bytes :
    (labels : List (List ℕ)) → valid_labels labels ≡ true → label_bytes labels ≡ true
valid_labels-bytes [] h = refl
valid_labels-bytes (label ∷ labels) h =
    let (one, more) = both h in rw (valid_label-bytes label one) (valid_labels-bytes labels more)
  where
    both :
        valid_labels (label ∷ labels) ≡ true
        → (valid_label label ≡ true) × (valid_labels labels ≡ true)
    both h = ground (arith, h)

onto_first-bytes :
    (byte : ℕ) (labels : List (List ℕ))
    → label_bytes (onto_first byte labels) ≡ true
    → (label_byte byte ≡ true) × (label_bytes labels ≡ true)
onto_first-bytes byte [] h = ground (arith, h)
onto_first-bytes byte (label ∷ labels) h = ground (arith, h)

split-bytes :
    (text : List ℕ) → label_bytes (split_at 0x2E text) ≡ true → all_bytes domain_byte text ≡ true
unfolding split_at
split-bytes [] h = refl
split-bytes (byte ∷ text) h = elim (Bool-cases (byte == 0x2E)) [
  | inl dot ↦ dotted dot (split-bytes text (rw dot at h))
  | inr other ↦
      let (one, more) = onto_first-bytes byte (split_at 0x2E text) (rw other at h) in
      labelled one (split-bytes text more)
]
  where
    dotted :
        (byte == 0x2E) ≡ true
        → all_bytes domain_byte text ≡ true
        → all_bytes domain_byte (byte ∷ text) ≡ true
    dotted h k = ground (arith, h, k)

    labelled :
        label_byte byte ≡ true
        → all_bytes domain_byte text ≡ true
        → all_bytes domain_byte (byte ∷ text) ≡ true
    labelled h k = ground (arith, h, k)

without_dot-bytes :
    (text : List ℕ)
    → all_bytes domain_byte (without_dot text) ≡ true
    → all_bytes domain_byte text ≡ true
without_dot-bytes [] h = refl
without_dot-bytes (byte ∷ text) h = elim (Bool-cases (byte == 0x2E)) [
  | inl dot ↦ dotted dot (rw dot at h)
  | inr other ↦ rw other at h
]
  where
    dotted :
        (byte == 0x2E) ≡ true
        → all_bytes domain_byte text ≡ true
        → all_bytes domain_byte (byte ∷ text) ≡ true
    dotted h k = ground (arith, h, k)

pub valid_domain-bytes :
    (text : List ℕ) → valid_domain text ≡ true → all_bytes domain_byte text ≡ true
unfolding valid_domain
valid_domain-bytes text h = elim (Bool-cases (is_empty text)) [
  | inl nothing ↦ emptied text nothing
  | inr some_text ↦
      elim (Bool-cases (is_empty (without_dot text) || ltb 253 (length (without_dot text)))) [
        | inl bad ↦ cc (rw (some_text, bad) at h)
        | inr fine ↦ without_dot-bytes text (
            split-bytes (without_dot text)
              (valid_labels-bytes (split_at 0x2E (without_dot text)) (rw (some_text, fine) at h)))
      ]
]
  where
    emptied : (text : List ℕ) → is_empty text ≡ true → all_bytes domain_byte text ≡ true
    emptied [] h = refl
    emptied (byte ∷ text) h = cc

decimal_from-printable :
    (fuel n : ℕ) (digits : List ℕ)
    → all_bytes printable digits ≡ true
    → all_bytes printable (decimal_from fuel n digits) ≡ true
decimal_from-printable zero n digits h = h
decimal_from-printable (suc fuel) n digits h = elim (Bool-cases (ltb n 10)) [
  | inl l ↦ rw l (last n (ltb→lt n 10 l))
  | inr l ↦ rw l (
      decimal_from-printable fuel (n / 10) ((0x30 + n % 10) ∷ digits) (last (n % 10) (omega arith)))
]
  where
    last : (n : ℕ) → n < 10 → all_bytes printable ((0x30 + n) ∷ digits) ≡ true
    last n k = ground (arith, h)

abbrev pub all_texts : (ℕ → Bool) → List (List ℕ) → Bool
all_texts test [] = true
all_texts test (text ∷ texts) = all_bytes test text && all_texts test texts

pub all_texts-flat :
    (test : ℕ → Bool) (texts : List (List ℕ))
    → all_texts test texts ≡ true
    → all_bytes test (flat texts) ≡ true
all_texts-flat test [] h = refl
all_texts-flat test (text ∷ texts) h =
    let (one, more) = both h in
    all_bytes-append test text (flat texts) one (all_texts-flat test texts more)
  where
    both :
        all_texts test (text ∷ texts) ≡ true
        → (all_bytes test text ≡ true) × (all_texts test texts ≡ true)
    both h = ground (arith, h)

pub all_texts-append :
    (test : ℕ → Bool) (xs ys : List (List ℕ))
    → all_texts test xs ≡ true
    → all_texts test ys ≡ true
    → all_texts test (xs ++ ys) ≡ true
all_texts-append test [] ys h k = k
all_texts-append test (x ∷ xs) ys h k = ground (arith, h, all_texts-append test xs ys)

pub domain_text-printable :
    (domain : List ℕ)
    → all_bytes printable domain ≡ true
    → all_texts printable (domain_text domain) ≡ true
domain_text-printable [] h = refl
domain_text-printable (byte ∷ domain) h = rw h refl

pub path_text-printable :
    (path : List ℕ) → all_bytes printable path ≡ true → all_texts printable (path_text path) ≡ true
path_text-printable [] h = refl
path_text-printable (byte ∷ path) h = rw h refl

pub age_text-printable : (age : Option ℤ) → all_texts printable (age_text age) ≡ true
age_text-printable none = refl
age_text-printable (some age) = rw (decimal_from-printable 20 (at_least_zero age) [] refl) refl

pub secure_text-printable : (secure : Bool) → all_texts printable (secure_text secure) ≡ true
secure_text-printable true = refl
secure_text-printable false = refl

pub http_only_text-printable : (b : Bool) → all_texts printable (http_only_text b) ≡ true
http_only_text-printable true = refl
http_only_text-printable false = refl

pub same_site_text-printable :
    (site : CookieSameSite) → all_texts printable (same_site_text site ∷ []) ≡ true
same_site_text-printable unspecified = refl
same_site_text-printable lax = refl
same_site_text-printable strict = refl
same_site_text-printable none_site = refl
