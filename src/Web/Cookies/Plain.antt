-- ===== src/Web/Cookies/Plain.antt =====
-- A Set-Cookie value of src/Web/RequestData.cpp, split at its semicolons.
use server_core.Base.{
  ℕ, zero, suc, ◌+◌, ◌/◌, ◌%◌, ◌<◌, ◌≡◌, refl, ap, ◌∙◌, inl, inr, Bool, true, false, not, ◌&&◌,
  Option, none, some, List, [], ◌∷◌, ◌++◌, append-nil, arith, ltb, ltb→lt, ◌==◌, Bool-cases,
}
use server_core.Base.Integers.{ℤ}
use server_core.Base.Text.{contains_byte, contains-append, split_at, split_at-append, split_at-one}
use server_core.Web.Cookies.{
  all_bytes, CookieSameSite, unspecified, lax, strict, none_site, CookieOptions, path_byte, decimal,
  decimal_from, at_least_zero,
}
use server_core.Web.Cookies.Bytes.{domain_byte}
use server_core.Web.Cookies.Attributes.{
  six, domain_front, path_front, age_front, secure_field, http_only_field, when_there, age_fields,
  flag_fields, site_fields, asked_fields, joined,
}

-- No field has a semicolon of its own.
abbrev pub plain_fields : List (List ℕ) → Bool
plain_fields [] = true
plain_fields (field ∷ fields) = not (contains_byte 0x3B field) && plain_fields fields

plain-cons :
    (field : List ℕ) (fields : List (List ℕ))
    → plain_fields (field ∷ fields) ≡ true
    → (contains_byte 0x3B field ≡ false) × (plain_fields fields ≡ true)
plain-cons field fields h = ground (arith, h)

pub split_at-joined :
    (front : List ℕ) (fields : List (List ℕ))
    → contains_byte 0x3B front ≡ false
    → plain_fields fields ≡ true
    → split_at 0x3B (front ++ joined fields) ≡ front ∷ fields
split_at-joined front [] h k = ap (split_at 0x3B) (append-nil front) ∙ split_at-one 0x3B front h
split_at-joined front (field ∷ fields) h k =
    let (one, more) = plain-cons field fields k in
    split_at-append 0x3B front (field ++ joined fields) h
    ∙ ap (λ t. front ∷ t) (split_at-joined field fields one more)

plain-append :
    (xs ys : List (List ℕ))
    → plain_fields xs ≡ true
    → plain_fields ys ≡ true
    → plain_fields (xs ++ ys) ≡ true
plain-append [] ys h k = k
plain-append (x ∷ xs) ys h k = ground (arith, h, plain-append xs ys)

bytes-plain :
    (test : ℕ → Bool) (text : List ℕ)
    → ((byte : ℕ) → test byte ≡ true → (byte == 0x3B) ≡ false)
    → all_bytes test text ≡ true
    → contains_byte 0x3B text ≡ false
bytes-plain test [] e h = refl
bytes-plain test (byte ∷ text) e h = ground (arith, h, e byte, bytes-plain test text e)

when_there-plain :
    (front text : List ℕ)
    → contains_byte 0x3B front ≡ false
    → contains_byte 0x3B text ≡ false
    → plain_fields (when_there front text) ≡ true
when_there-plain front [] h k = refl
when_there-plain front (byte ∷ text) h k = rw (contains-append 0x3B front (byte ∷ text) h k) refl

decimal_from-plain :
    (fuel n : ℕ) (digits : List ℕ)
    → contains_byte 0x3B digits ≡ false
    → contains_byte 0x3B (decimal_from fuel n digits) ≡ false
decimal_from-plain zero n digits h = h
decimal_from-plain (suc fuel) n digits h = elim (Bool-cases (ltb n 10)) [
  | inl l ↦ rw l (digit n digits (ltb→lt n 10 l) h)
  | inr l ↦ rw l (
      decimal_from-plain fuel (n / 10) ((0x30 + n % 10) ∷ digits)
        (digit (n % 10) digits (omega arith) h))
]
  where
    digit :
        (n : ℕ) (digits : List ℕ)
        → n < 10
        → contains_byte 0x3B digits ≡ false
        → contains_byte 0x3B ((0x30 + n) ∷ digits) ≡ false
    digit n digits k h = ground (arith, h)

age_fields-plain : (age : Option ℤ) → plain_fields (age_fields age) ≡ true
age_fields-plain none = refl
age_fields-plain (some age) =
    rw
      (contains-append 0x3B age_front (decimal (at_least_zero age)) refl
        (decimal_from-plain 20 (at_least_zero age) [] refl))
      refl

flag_fields-plain :
    (field : List ℕ) (b : Bool)
    → contains_byte 0x3B field ≡ false
    → plain_fields (flag_fields field b) ≡ true
flag_fields-plain field false h = refl
flag_fields-plain field true h = rw h refl

site_fields-plain : (site : CookieSameSite) → plain_fields (site_fields site) ≡ true
site_fields-plain unspecified = refl
site_fields-plain lax = refl
site_fields-plain strict = refl
site_fields-plain none_site = refl

domain_byte-plain : (byte : ℕ) → domain_byte byte ≡ true → (byte == 0x3B) ≡ false
domain_byte-plain byte h = ground (arith, h)

path_byte-plain : (byte : ℕ) → path_byte byte ≡ true → (byte == 0x3B) ≡ false
path_byte-plain byte h = ground (arith, h)

pub asked_fields-plain :
    (o : CookieOptions)
    → all_bytes domain_byte o.domain ≡ true
    → all_bytes path_byte o.path ≡ true
    → plain_fields (asked_fields o) ≡ true
asked_fields-plain o d p =
    six plain_fields plain-append (when_there domain_front o.domain) (when_there path_front o.path)
      (age_fields o.max_age_seconds) (flag_fields secure_field o.secure)
      (flag_fields http_only_field o.http_only) (site_fields o.same_site)
      (when_there-plain domain_front o.domain refl
        (bytes-plain domain_byte o.domain domain_byte-plain d))
      (when_there-plain path_front o.path refl (bytes-plain path_byte o.path path_byte-plain p))
      (age_fields-plain o.max_age_seconds) (flag_fields-plain secure_field o.secure refl)
      (flag_fields-plain http_only_field o.http_only refl) (site_fields-plain o.same_site)
