-- ===== src/Web/Cookies.antt =====
-- The cookies of src/Web/RequestData.cpp, and `IsToken` of src/Web/WebProtocol.cpp. Text is its bytes, a
-- `char` above 127 a byte that no test of the source lets through. `grows n` is whether the result can
-- hold `n` bytes.
pub mod Parsing
pub mod Bytes
pub mod Attributes
pub mod Plain
pub mod Rules
pub mod Printing
use server_core.Base.{
  ℕ, zero, suc, ◌+◌, ◌-◌, ◌/◌, ◌%◌, ◌≡◌, Bool, true, false, not, ◌&&◌, ◌||◌, Option, none, some,
  List, [], ◌∷◌, ◌++◌, ltb, leb, ◌==◌, if◌then◌else◌, length,
}
use server_core.Base.Integers.{ℤ, pos, negsuc}
use server_core.Core.Error.{ErrorCode, Status, allocation_failure, Result, value, failed, ◌>>=◌}
use server_core.Web.RoutePattern.{same_bytes}
use server_core.Web.RequestData.{
  FieldLimits, valid_limits, contains_byte, is_alphanumeric, before, behind, split_at, is_empty,
  Field, first_field,
}

-- The characters "!#$%&'*+-.^_`|~".
abbrev token_marks : List ℕ
token_marks =
    0x21 ∷ 0x23 ∷ 0x24 ∷ 0x25 ∷ 0x26 ∷ 0x27 ∷ 0x2A ∷ 0x2B ∷ 0x2D ∷ 0x2E ∷ 0x5E ∷ 0x5F ∷ 0x60 ∷ 0x7C
    ∷ 0x7E ∷ []

abbrev pub all_bytes : (ℕ → Bool) → List ℕ → Bool
all_bytes test [] = true
all_bytes test (byte ∷ text) = test byte && all_bytes test text

abbrev pub token_byte : ℕ → Bool
token_byte byte = is_alphanumeric byte || contains_byte byte token_marks

-- `IsToken`
abbrev pub is_token : List ℕ → Bool
is_token text = not (is_empty text) && all_bytes token_byte text

abbrev pub cookie_byte : ℕ → Bool
cookie_byte byte =
    byte == 0x21
    || (leb 0x23 byte && leb byte 0x2B)
    || (leb 0x2D byte && leb byte 0x3A)
    || (leb 0x3C byte && leb byte 0x5B)
    || (leb 0x5D byte && leb byte 0x7E)

-- `CookieValue`
abbrev pub cookie_value : List ℕ → Bool
cookie_value text = all_bytes cookie_byte text

abbrev pub is_blank : ℕ → Bool
is_blank byte = byte == 0x20 || byte == 0x09

-- The two loops of `Trim`.
abbrev pub trim_front : List ℕ → List ℕ
trim_front [] = []
trim_front (byte ∷ text) = let rest = trim_front text in if is_blank byte then rest else byte ∷ text

abbrev pub trim_back : List ℕ → List ℕ
trim_back [] = []
trim_back (byte ∷ text) =
    let rest = trim_back text in if is_empty rest && is_blank byte then [] else byte ∷ rest

abbrev pub trim : List ℕ → List ℕ
trim text = trim_back (trim_front text)

-- Whether the text begins with the byte, and whether it ends with it.
abbrev pub front_is : ℕ → List ℕ → Bool
front_is byte [] = false
front_is byte (other ∷ text) = other == byte

abbrev pub back_is : ℕ → List ℕ → Bool
back_is byte [] = false
back_is byte (other ∷ []) = other == byte
back_is byte (other ∷ next ∷ text) = back_is byte (next ∷ text)

abbrev pub drop_front : List ℕ → List ℕ
drop_front [] = []
drop_front (byte ∷ text) = text

abbrev pub drop_back : List ℕ → List ℕ
drop_back [] = []
drop_back (byte ∷ []) = []
drop_back (byte ∷ next ∷ text) = byte ∷ drop_back (next ∷ text)

-- A value between quotes stands without them.
abbrev pub unquoted : List ℕ → List ℕ
unquoted text =
    if leb 2 (length text) && front_is 0x22 text && back_is 0x22 text
    then drop_back (drop_front text)
    else text

-- A field that is not empty, in front of what follows.
unfoldable pub parse_cookie : FieldLimits → ℕ → List ℕ → Result (List Field) → Result (List Field)
parse_cookie limits count field rest =
    let name = before 0x3D field in
    let text = unquoted (behind 0x3D field) in
    if not (contains_byte 0x3D field)
    then failed ErrorCode.invalid_format
    else if not (is_token name) || not (cookie_value text)
    then failed ErrorCode.invalid_format
    else if count == limits.max_fields
        || ltb limits.max_name_bytes (length name)
        || ltb limits.max_value_bytes (length text)
    then failed ErrorCode.too_large
    else first_field (name, text) rest

-- The loop of `ParseCookieHeader` over the fields between semicolons.
unfoldable pub parse_cookies_from : FieldLimits → ℕ → List (List ℕ) → Result (List Field)
unfolding parse_cookie
parse_cookies_from limits count [] = value []
parse_cookies_from limits count (field ∷ fields) =
    let same = parse_cookies_from limits count fields in
    let more = parse_cookies_from limits (count + 1) fields in
    if is_empty (trim field) then same else parse_cookie limits count (trim field) more

unfoldable pub parse_cookie_header : Bool → List ℕ → FieldLimits → Result (List Field)
unfolding parse_cookies_from split_at
parse_cookie_header granted input limits =
    if not (valid_limits limits)
    then failed ErrorCode.invalid_argument
    else if ltb limits.max_bytes (length input)
    then failed ErrorCode.too_large
    else if not granted
    then failed allocation_failure
    else parse_cookies_from limits 0 (split_at 0x3B input)

pub data CookieSameSite : Type 0 where
  unspecified lax strict none_site : CookieSameSite

pub record CookieOptions : Type 0 where
  pub domain : List ℕ
  pub path : List ℕ
  pub max_age_seconds : Option ℤ
  pub same_site : CookieSameSite
  pub secure : Bool
  pub http_only : Bool
  pub max_bytes : ℕ

abbrev pub label_byte : ℕ → Bool
label_byte byte = is_alphanumeric byte || byte == 0x2D

-- One round of the loop of `Domain`.
abbrev pub valid_label : List ℕ → Bool
valid_label label =
    not (is_empty label)
    && leb (length label) 63
    && not (front_is 0x2D label)
    && not (back_is 0x2D label)
    && all_bytes label_byte label

abbrev pub valid_labels : List (List ℕ) → Bool
valid_labels [] = true
valid_labels (label ∷ labels) = valid_label label && valid_labels labels

abbrev pub without_dot : List ℕ → List ℕ
without_dot text = if front_is 0x2E text then drop_front text else text

-- `Domain`. A dot at the end leaves an empty label, which is refused.
unfoldable pub valid_domain : List ℕ → Bool
unfolding split_at
valid_domain text =
    if is_empty text
    then true
    else if is_empty (without_dot text) || ltb 253 (length (without_dot text))
    then false
    else valid_labels (split_at 0x2E (without_dot text))

abbrev pub is_none_site : CookieSameSite → Bool
is_none_site none_site = true
is_none_site _ = false

abbrev pub starts_with : List ℕ → List ℕ → Bool
starts_with [] text = true
starts_with (byte ∷ front) [] = false
starts_with (byte ∷ front) (other ∷ text) = byte == other && starts_with front text

-- "__Secure-" and "__Host-".
abbrev pub secure_prefix : List ℕ
secure_prefix = 0x5F ∷ 0x5F ∷ 0x53 ∷ 0x65 ∷ 0x63 ∷ 0x75 ∷ 0x72 ∷ 0x65 ∷ 0x2D ∷ []

abbrev pub host_prefix : List ℕ
host_prefix = 0x5F ∷ 0x5F ∷ 0x48 ∷ 0x6F ∷ 0x73 ∷ 0x74 ∷ 0x2D ∷ []

-- The condition that ends in InvalidArgument, without the one on the path's bytes.
abbrev pub is_refused_cookie : List ℕ → List ℕ → CookieOptions → Bool
is_refused_cookie name text options =
    options.max_bytes == 0
    || not (is_token name)
    || not (cookie_value text)
    || not (valid_domain options.domain)
    || (not (is_empty options.path) && not (front_is 0x2F options.path))
    || (is_none_site options.same_site && not options.secure)
    || (starts_with secure_prefix name && not options.secure)
    || (starts_with host_prefix name
        && (not options.secure
            || not (is_empty options.domain)
            || not (same_bytes options.path (0x2F ∷ []))))

abbrev pub path_byte : ℕ → Bool
path_byte byte = leb 0x20 byte && leb byte 0x7E && not (byte == 0x3B)

-- `std::to_string` of a number that is not negative: its last digits, `fuel` of them at most. Twenty
-- are enough for 64 bits.
abbrev pub decimal_from : ℕ → ℕ → List ℕ → List ℕ
decimal_from zero n digits = digits
decimal_from (suc fuel) n digits =
    let more = decimal_from fuel (n / 10) ((0x30 + n % 10) ∷ digits) in
    if ltb n 10 then (0x30 + n) ∷ digits else more

abbrev pub decimal : ℕ → List ℕ
decimal n = decimal_from 20 n []

abbrev pub at_least_zero : ℤ → ℕ
at_least_zero (pos n) = n
at_least_zero (negsuc n) = 0

-- The attributes that the options ask for, each with its "; ".
abbrev pub domain_text : List ℕ → List (List ℕ)
domain_text [] = []
domain_text domain =
    (0x3B ∷ 0x20 ∷ 0x44 ∷ 0x6F ∷ 0x6D ∷ 0x61 ∷ 0x69 ∷ 0x6E ∷ 0x3D ∷ []) ∷ domain ∷ []

abbrev pub path_text : List ℕ → List (List ℕ)
path_text [] = []
path_text path = (0x3B ∷ 0x20 ∷ 0x50 ∷ 0x61 ∷ 0x74 ∷ 0x68 ∷ 0x3D ∷ []) ∷ path ∷ []

abbrev pub age_text : Option ℤ → List (List ℕ)
age_text none = []
age_text (some age) =
    (0x3B ∷ 0x20 ∷ 0x4D ∷ 0x61 ∷ 0x78 ∷ 0x2D ∷ 0x41 ∷ 0x67 ∷ 0x65 ∷ 0x3D ∷ [])
    ∷ decimal (at_least_zero age)
    ∷ []

abbrev pub secure_text : Bool → List (List ℕ)
secure_text false = []
secure_text true = (0x3B ∷ 0x20 ∷ 0x53 ∷ 0x65 ∷ 0x63 ∷ 0x75 ∷ 0x72 ∷ 0x65 ∷ []) ∷ []

abbrev pub http_only_text : Bool → List (List ℕ)
http_only_text false = []
http_only_text true =
    (0x3B ∷ 0x20 ∷ 0x48 ∷ 0x74 ∷ 0x74 ∷ 0x70 ∷ 0x4F ∷ 0x6E ∷ 0x6C ∷ 0x79 ∷ []) ∷ []

-- "; SameSite="
abbrev same_site_front : List ℕ
same_site_front = 0x3B ∷ 0x20 ∷ 0x53 ∷ 0x61 ∷ 0x6D ∷ 0x65 ∷ 0x53 ∷ 0x69 ∷ 0x74 ∷ 0x65 ∷ 0x3D ∷ []

abbrev pub same_site_text : CookieSameSite → List ℕ
same_site_text unspecified = []
same_site_text lax = same_site_front ++ 0x4C ∷ 0x61 ∷ 0x78 ∷ []
same_site_text strict = same_site_front ++ 0x53 ∷ 0x74 ∷ 0x72 ∷ 0x69 ∷ 0x63 ∷ 0x74 ∷ []
same_site_text none_site = same_site_front ++ 0x4E ∷ 0x6F ∷ 0x6E ∷ 0x65 ∷ []

-- The texts that `append` is given, in their order.
abbrev pub cookie_texts : List ℕ → List ℕ → CookieOptions → List (List ℕ)
cookie_texts name text options =
    name
    ∷ (0x3D ∷ [])
    ∷ text
    ∷ (domain_text options.domain
        ++ path_text options.path
        ++ age_text options.max_age_seconds
        ++ secure_text options.secure
        ++ http_only_text options.http_only
        ++ same_site_text options.same_site ∷ [])

-- The calls of `append`: each leaves the limit or the rest unharmed.
unfoldable pub append_all : (ℕ → Bool) → ℕ → List ℕ → List (List ℕ) → Result (List ℕ)
append_all grows max_bytes result [] = value result
append_all grows max_bytes result (text ∷ texts) =
    let rest = append_all grows max_bytes (result ++ text) texts in
    if ltb (max_bytes - length result) (length text)
    then failed ErrorCode.too_large
    else if not (grows (length result + length text))
    then failed allocation_failure
    else rest

unfoldable pub serialize_set_cookie : (ℕ → Bool) → List ℕ → List ℕ → CookieOptions → Result (List ℕ)
unfolding append_all valid_domain
serialize_set_cookie grows name text options =
    if is_refused_cookie name text options
    then failed ErrorCode.invalid_argument
    else if not (all_bytes path_byte options.path)
    then failed ErrorCode.invalid_argument
    else append_all grows options.max_bytes [] (cookie_texts name text options)
