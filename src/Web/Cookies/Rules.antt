-- ===== src/Web/Cookies/Rules.antt =====
-- The fields that the rules on a Set-Cookie value of src/Web/RequestData.cpp ask for.
use server_core.Base.{
  ℕ, ◌≡◌, refl, Bool, true, false, not, ◌||◌, Option, none, some, List, [], ◌∷◌, ◌++◌, arith,
}
use server_core.Base.Integers.{ℤ}
use server_core.Web.RoutePattern.{same_bytes}
use server_core.Web.Cookies.{
  CookieSameSite, unspecified, lax, strict, none_site, CookieOptions, starts_with,
}
use server_core.Web.Cookies.Attributes.{
  six, domain_front, path_front, secure_field, http_only_field, root_field, when_there, age_fields,
  flag_fields, site_fields, asked_fields,
}

-- Whether a field is there, and whether one begins that way.
abbrev pub has_field : List ℕ → List (List ℕ) → Bool
has_field field [] = false
has_field field (other ∷ fields) = same_bytes other field || has_field field fields

abbrev pub has_front : List ℕ → List (List ℕ) → Bool
has_front front [] = false
has_front front (field ∷ fields) = starts_with front field || has_front front fields

has_field-right :
    (field : List ℕ) (xs ys : List (List ℕ))
    → has_field field ys ≡ true
    → has_field field (xs ++ ys) ≡ true
has_field-right field [] ys h = h
has_field-right field (x ∷ xs) ys h = ground (arith, h, has_field-right field xs ys)

has_field-left :
    (field : List ℕ) (xs ys : List (List ℕ))
    → has_field field xs ≡ true
    → has_field field (xs ++ ys) ≡ true
has_field-left field [] ys h = cc
has_field-left field (x ∷ xs) ys h = ground (arith, h, has_field-left field xs ys)

pub asked_fields-secure :
    (o : CookieOptions) → o.secure ≡ true → has_field secure_field (asked_fields o) ≡ true
asked_fields-secure o h =
    let front =
      when_there domain_front o.domain
      ++ when_there path_front o.path
      ++ age_fields o.max_age_seconds in
    let more = flag_fields secure_field o.secure in
    has_field-left secure_field (front ++ more ++ flag_fields http_only_field o.http_only)
      (site_fields o.same_site)
      (has_field-left secure_field (front ++ more) (flag_fields http_only_field o.http_only)
        (has_field-right secure_field front more (rw h refl)))

pub asked_fields-root :
    (o : CookieOptions) → o.path ≡ 0x2F ∷ [] → has_field root_field (asked_fields o) ≡ true
asked_fields-root o h =
    let domain = when_there domain_front o.domain in
    let path = when_there path_front o.path in
    let age = age_fields o.max_age_seconds in
    let secure = flag_fields secure_field o.secure in
    let http = flag_fields http_only_field o.http_only in
    has_field-left root_field (domain ++ path ++ age ++ secure ++ http) (site_fields o.same_site) (
      has_field-left root_field (domain ++ path ++ age ++ secure) http (
        has_field-left root_field (domain ++ path ++ age) secure (
          has_field-left root_field (domain ++ path) age
            (has_field-right root_field domain path (rw h refl)))))

unfoldable lacks_front : List (List ℕ) → Bool
lacks_front fields = not (has_front domain_front fields)

lacks-append :
    (xs ys : List (List ℕ))
    → lacks_front xs ≡ true
    → lacks_front ys ≡ true
    → lacks_front (xs ++ ys) ≡ true
unfolding lacks_front
lacks-append [] ys h k = k
lacks-append (x ∷ xs) ys h k = ground (arith, h, lacks-append xs ys)

-- Without a domain there is no field " Domain=".
pub asked_fields-domain :
    (o : CookieOptions) → o.domain ≡ [] → has_front domain_front (asked_fields o) ≡ false
unfolding lacks_front
asked_fields-domain o h = not-false (has_front domain_front (asked_fields o)) (
    six lacks_front lacks-append (when_there domain_front o.domain) (when_there path_front o.path)
      (age_fields o.max_age_seconds) (flag_fields secure_field o.secure)
      (flag_fields http_only_field o.http_only) (site_fields o.same_site) (rw h refl)
      (lacks_path o.path) (lacks_age o.max_age_seconds) (lacks_secure o.secure)
      (lacks_http o.http_only) (lacks_site o.same_site))
  where
    not-false : (b : Bool) → not b ≡ true → b ≡ false
    not-false true h = cc
    not-false false h = refl

    lacks_path : (path : List ℕ) → lacks_front (when_there path_front path) ≡ true
    lacks_path [] = refl
    lacks_path (byte ∷ path) = refl

    lacks_age : (age : Option ℤ) → lacks_front (age_fields age) ≡ true
    lacks_age none = refl
    lacks_age (some n) = refl

    lacks_secure : (b : Bool) → lacks_front (flag_fields secure_field b) ≡ true
    lacks_secure true = refl
    lacks_secure false = refl

    lacks_http : (b : Bool) → lacks_front (flag_fields http_only_field b) ≡ true
    lacks_http true = refl
    lacks_http false = refl

    lacks_site : (s : CookieSameSite) → lacks_front (site_fields s) ≡ true
    lacks_site unspecified = refl
    lacks_site lax = refl
    lacks_site strict = refl
    lacks_site none_site = refl
