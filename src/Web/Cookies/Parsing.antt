-- ===== src/Web/Cookies/Parsing.antt =====
-- Cookies written one after another and parsed by `ParseCookieHeader` of src/Web/RequestData.cpp.
use server_core.Base.{
  ℕ, ◌+◌, ◌≤◌, ◌<◌, ◌≡◌, refl, ap, ◌∙◌, Bool, true, false, not, ◌&&◌, List, [], ◌∷◌, ◌++◌, map,
  arith, le→ltb, lt→==, ◌==◌, ==_iff, length, All,
}
use server_core.Core.Error.{Result, value}
use server_core.Web.RequestData.{
  FieldLimits, valid_limits, contains_byte, onto_first, split_at, is_empty, Field, first_field,
}
use server_core.Base.Text.{before-append, behind-append, split_at-append, split_at-one}
use server_core.Web.Cookies.{
  all_bytes, token_byte, is_token, cookie_byte, cookie_value, is_blank, trim_front, trim_back, trim,
  unquoted, parse_cookie, parse_cookies_from, parse_cookie_header,
}

abbrev plain_byte : ℕ → Bool
plain_byte byte = not (is_blank byte) && not (byte == 0x3B)

pub token_byte-plain :
    (byte : ℕ) → token_byte byte ≡ true → (plain_byte byte ≡ true) × ((byte == 0x3D) ≡ false)
token_byte-plain byte h = ground (arith, h)

pub cookie_byte-plain :
    (byte : ℕ) → cookie_byte byte ≡ true → (plain_byte byte ≡ true) × ((byte == 0x22) ≡ false)
cookie_byte-plain byte h = ground (arith, h)

pub all_bytes-cons :
    (test : ℕ → Bool) (byte : ℕ) (text : List ℕ)
    → all_bytes test (byte ∷ text) ≡ true
    → (test byte ≡ true) × (all_bytes test text ≡ true)
all_bytes-cons test byte text h = ground (arith, h)

pub all_bytes-weaken :
    (test other : ℕ → Bool) (text : List ℕ)
    → ((byte : ℕ) → test byte ≡ true → other byte ≡ true)
    → all_bytes test text ≡ true
    → all_bytes other text ≡ true
all_bytes-weaken test other [] f h = refl
all_bytes-weaken test other (byte ∷ text) f h =
    let (one, more) = all_bytes-cons test byte text h in
    rw (f byte one) (all_bytes-weaken test other text f more)

pub all_bytes-append :
    (test : ℕ → Bool) (xs ys : List ℕ)
    → all_bytes test xs ≡ true
    → all_bytes test ys ≡ true
    → all_bytes test (xs ++ ys) ≡ true
all_bytes-append test [] ys h k = k
all_bytes-append test (x ∷ xs) ys h k =
    let (one, more) = all_bytes-cons test x xs h in rw one (all_bytes-append test xs ys more k)

pub plain-free :
    (text : List ℕ) → all_bytes plain_byte text ≡ true → contains_byte 0x3B text ≡ false
plain-free [] h = refl
plain-free (byte ∷ text) h = ground (arith, h, plain-free text)

token-free : (name : List ℕ) → all_bytes token_byte name ≡ true → contains_byte 0x3D name ≡ false
token-free [] h = refl
token-free (byte ∷ name) h =
    let (one, more) = all_bytes-cons token_byte byte name h in
    rw (token_byte-plain byte one).1 (token-free name more)

trim_back-plain : (text : List ℕ) → all_bytes plain_byte text ≡ true → trim_back text ≡ text
trim_back-plain [] h = refl
trim_back-plain (byte ∷ text) h =
    let (one, more) = all_bytes-cons plain_byte byte text h in
    rw (trim_back-plain text more) (ground (arith, one))

trim-plain : (text : List ℕ) → all_bytes plain_byte text ≡ true → trim text ≡ text
trim-plain [] h = refl
trim-plain (byte ∷ text) h =
    let (one, more) = all_bytes-cons plain_byte byte text h in
    ap trim_back (go one) ∙ trim_back-plain (byte ∷ text) h
  where
    go : plain_byte byte ≡ true → trim_front (byte ∷ text) ≡ byte ∷ text
    go h = ground (arith, h)

unquoted-value : (text : List ℕ) → cookie_value text ≡ true → unquoted text ≡ text
unquoted-value [] h = refl
unquoted-value (byte ∷ text) h =
    let (one, _) = all_bytes-cons cookie_byte byte text h in
    ground (arith, (cookie_byte-plain byte one).1)

-- How cookies are written in a header.
abbrev pub cookie : Field → List ℕ
cookie (name, text) = name ++ 0x3D ∷ text

abbrev pub cookies : List Field → List ℕ
cookies [] = []
cookies (field ∷ []) = cookie field
cookies (field ∷ next ∷ fields) = cookie field ++ 0x3B ∷ 0x20 ∷ cookies (next ∷ fields)

pub record IsCookie (limits : FieldLimits) (field : Field) : Type 0 where
  pub token : is_token field.0 ≡ true
  pub text : cookie_value field.1 ≡ true
  pub short_name : length field.0 ≤ limits.max_name_bytes
  pub short_text : length field.1 ≤ limits.max_value_bytes

pub is_token-bytes : (name : List ℕ) → is_token name ≡ true → all_bytes token_byte name ≡ true
is_token-bytes [] h = refl
is_token-bytes (byte ∷ name) h = h

cookie-plain :
    (name text : List ℕ)
    → is_token name ≡ true
    → cookie_value text ≡ true
    → all_bytes plain_byte (cookie (name, text)) ≡ true
cookie-plain name text h k =
    all_bytes-append plain_byte name (0x3D ∷ text)
      (all_bytes-weaken token_byte plain_byte name (λ byte h. (token_byte-plain byte h).0)
        (is_token-bytes name h))
      (all_bytes-weaken cookie_byte plain_byte text (λ byte h. (cookie_byte-plain byte h).0) k)

-- A name that is a token and a value of cookie bytes hold no semicolon.
pub cookie-free :
    (name text : List ℕ)
    → is_token name ≡ true
    → cookie_value text ≡ true
    → contains_byte 0x3B (cookie (name, text)) ≡ false
cookie-free name text h k = plain-free (cookie (name, text)) (cookie-plain name text h k)

is_empty-cookie : (name text : List ℕ) → is_empty (name ++ 0x3D ∷ text) ≡ false
is_empty-cookie [] text = refl
is_empty-cookie (byte ∷ name) text = refl

contains-middle :
    (byte : ℕ) (front back : List ℕ) → contains_byte byte (front ++ byte ∷ back) ≡ true
contains-middle byte [] back = ground (arith, ==_iff byte byte)
contains-middle byte (x ∷ front) back = ground (arith, contains-middle byte front back)

parse_cookie-cookie :
    (limits : FieldLimits) (count : ℕ) (field : Field) (rest : Result (List Field))
    → count < limits.max_fields
    → IsCookie limits field
    → parse_cookie limits count (cookie field) rest ≡ first_field field rest
unfolding parse_cookie
parse_cookie-cookie limits count (name, text) rest h c =
    let free = token-free name (is_token-bytes name c.token) in
    rw
      (
        contains-middle 0x3D name text,
        before-append 0x3D name text free,
        behind-append 0x3D name text free,
        unquoted-value text c.text,
        c.token,
        c.text,
        lt→== count limits.max_fields h,
        le→ltb limits.max_name_bytes (length name) c.short_name,
        le→ltb limits.max_value_bytes (length text) c.short_text,
      )
      refl

-- A field is read from what is its cookie between blanks.
parse-raw :
    (limits : FieldLimits) (count : ℕ) (raw : List ℕ) (field : Field) (raws : List (List ℕ))
    → trim raw ≡ cookie field
    → count < limits.max_fields
    → IsCookie limits field
    → parse_cookies_from limits count (raw ∷ raws)
      ≡ first_field field (parse_cookies_from limits (count + 1) raws)
unfolding parse_cookies_from
parse-raw limits count raw (name, text) raws e h c =
    rw (e, is_empty-cookie name text) (parse_cookie-cookie limits count (name, text) _ h c)

abbrev spaced : Field → List ℕ
spaced field = 0x20 ∷ cookie field

split-cookies :
    (limits : FieldLimits) (field : Field) (fields : List Field)
    → All (IsCookie limits) (field ∷ fields)
    → split_at 0x3B (cookies (field ∷ fields)) ≡ cookie field ∷ map spaced fields
unfolding split_at
split-cookies limits field [] c =
    split_at-one 0x3B (cookie field) (cookie-free field.0 field.1 c.0.token c.0.text)
split-cookies limits field (next ∷ fields) c =
    split_at-append 0x3B (cookie field) (0x20 ∷ cookies (next ∷ fields))
      (cookie-free field.0 field.1 c.0.token c.0.text)
    ∙ ap (λ t. cookie field ∷ onto_first 0x20 t) (split-cookies limits next fields c.1)

parse-spaced :
    (limits : FieldLimits) (count : ℕ) (fields : List Field)
    → count + length fields ≤ limits.max_fields
    → All (IsCookie limits) fields
    → parse_cookies_from limits count (map spaced fields) ≡ value fields
unfolding parse_cookies_from
parse-spaced limits count [] h c = refl
parse-spaced limits count (field ∷ fields) h c =
    parse-raw limits count (spaced field) field (map spaced fields)
      (trim-plain (cookie field) (cookie-plain field.0 field.1 c.0.token c.0.text))
      (omega (arith, h)) c.0
    ∙ ap (first_field field) (parse-spaced limits (count + 1) fields (omega (arith, h)) c.1)

no_cookies : (limits : FieldLimits) → parse_cookies_from limits 0 (split_at 0x3B []) ≡ value []
unfolding parse_cookies_from split_at
no_cookies limits = refl

-- Cookies that keep to valid limits, their names tokens and their values without quotes, written with
-- a semicolon and a space between them, are parsed back in their order, duplicates included.
pub parse_cookie_header-cookies :
    (limits : FieldLimits) (fields : List Field)
    → valid_limits limits ≡ true
    → length (cookies fields) ≤ limits.max_bytes
    → length fields ≤ limits.max_fields
    → All (IsCookie limits) fields
    → parse_cookie_header true (cookies fields) limits ≡ value fields
unfolding parse_cookie_header
parse_cookie_header-cookies limits fields v small few c =
    rw (v, le→ltb limits.max_bytes (length (cookies fields)) small) (go fields few c)
  where
    go :
        (fields : List Field)
        → length fields ≤ limits.max_fields
        → All (IsCookie limits) fields
        → parse_cookies_from limits 0 (split_at 0x3B (cookies fields)) ≡ value fields
    go [] few c = no_cookies limits
    go (field ∷ fields) few c = rw (split-cookies limits field fields c) (
        parse-raw limits 0 (cookie field) field (map spaced fields)
          (trim-plain (cookie field) (cookie-plain field.0 field.1 c.0.token c.0.text))
          (omega (arith, few)) c.0
        ∙ ap (first_field field) (parse-spaced limits (0 + 1) fields (omega (arith, few)) c.1))
