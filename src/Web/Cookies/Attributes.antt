-- ===== src/Web/Cookies/Attributes.antt =====
-- A reader of a Set-Cookie value of src/Web/RequestData.cpp: the fields between its semicolons.
use server_core.Base.{
  ℕ, ◌≡◌, refl, sym, ap, ap₂, ◌∙◌, Bool, true, false, Option, none, some, List, [], ◌∷◌, ◌++◌,
  append_assoc,
}
use server_core.Base.Integers.{ℤ}
use server_core.Web.Cookies.{
  CookieSameSite, unspecified, lax, strict, none_site, CookieOptions, decimal, at_least_zero,
  domain_text, path_text, age_text, secure_text, http_only_text, same_site_text,
}
use server_core.Web.Cookies.Bytes.{flat}

-- The fields " Domain=", " Path=", " Max-Age=", " Secure", " HttpOnly" and " SameSite=".
abbrev pub domain_front : List ℕ
domain_front = 0x20 ∷ 0x44 ∷ 0x6F ∷ 0x6D ∷ 0x61 ∷ 0x69 ∷ 0x6E ∷ 0x3D ∷ []

abbrev pub path_front : List ℕ
path_front = 0x20 ∷ 0x50 ∷ 0x61 ∷ 0x74 ∷ 0x68 ∷ 0x3D ∷ []

abbrev pub age_front : List ℕ
age_front = 0x20 ∷ 0x4D ∷ 0x61 ∷ 0x78 ∷ 0x2D ∷ 0x41 ∷ 0x67 ∷ 0x65 ∷ 0x3D ∷ []

abbrev pub secure_field : List ℕ
secure_field = 0x20 ∷ 0x53 ∷ 0x65 ∷ 0x63 ∷ 0x75 ∷ 0x72 ∷ 0x65 ∷ []

abbrev pub http_only_field : List ℕ
http_only_field = 0x20 ∷ 0x48 ∷ 0x74 ∷ 0x74 ∷ 0x70 ∷ 0x4F ∷ 0x6E ∷ 0x6C ∷ 0x79 ∷ []

abbrev site_front : List ℕ
site_front = 0x20 ∷ 0x53 ∷ 0x61 ∷ 0x6D ∷ 0x65 ∷ 0x53 ∷ 0x69 ∷ 0x74 ∷ 0x65 ∷ 0x3D ∷ []

-- " Path=/"
abbrev pub root_field : List ℕ
root_field = path_front ++ 0x2F ∷ []

abbrev pub when_there : List ℕ → List ℕ → List (List ℕ)
when_there front [] = []
when_there front (byte ∷ text) = (front ++ byte ∷ text) ∷ []

abbrev pub age_fields : Option ℤ → List (List ℕ)
age_fields none = []
age_fields (some age) = (age_front ++ decimal (at_least_zero age)) ∷ []

abbrev pub flag_fields : List ℕ → Bool → List (List ℕ)
flag_fields field false = []
flag_fields field true = field ∷ []

abbrev pub site_fields : CookieSameSite → List (List ℕ)
site_fields unspecified = []
site_fields lax = (site_front ++ 0x4C ∷ 0x61 ∷ 0x78 ∷ []) ∷ []
site_fields strict = (site_front ++ 0x53 ∷ 0x74 ∷ 0x72 ∷ 0x69 ∷ 0x63 ∷ 0x74 ∷ []) ∷ []
site_fields none_site = (site_front ++ 0x4E ∷ 0x6F ∷ 0x6E ∷ 0x65 ∷ []) ∷ []

-- What a reader is to find behind the name and the value.
abbrev pub asked_fields : CookieOptions → List (List ℕ)
asked_fields o =
    when_there domain_front o.domain
    ++ when_there path_front o.path
    ++ age_fields o.max_age_seconds
    ++ flag_fields secure_field o.secure
    ++ flag_fields http_only_field o.http_only
    ++ site_fields o.same_site

abbrev pub joined : List (List ℕ) → List ℕ
joined [] = []
joined (field ∷ fields) = 0x3B ∷ (field ++ joined fields)

-- What an append of two keeps, the attributes together have.
pub six :
    (P : List (List ℕ) → Bool)
    → ((xs ys : List (List ℕ)) → P xs ≡ true → P ys ≡ true → P (xs ++ ys) ≡ true)
    → (a b c d e f : List (List ℕ)) → P a ≡ true
    → P b ≡ true
    → P c ≡ true
    → P d ≡ true
    → P e ≡ true
    → P f ≡ true
    → P (a ++ b ++ c ++ d ++ e ++ f) ≡ true
six P step a b c d e f pa pb pc pd pe pf =
    step (a ++ b ++ c ++ d ++ e) f
      (step (a ++ b ++ c ++ d) e (step (a ++ b ++ c) d (step (a ++ b) c (step a b pa pb) pc) pd) pe)
      pf

-- The texts that are written are these fields.
abbrev IsWritten : List (List ℕ) → List (List ℕ) → Type 0
IsWritten texts fields = flat texts ≡ joined fields

flat-append : (xs ys : List (List ℕ)) → flat (xs ++ ys) ≡ flat xs ++ flat ys
flat-append [] ys = refl
flat-append (x ∷ xs) ys =
    ap (λ t. x ++ t) (flat-append xs ys) ∙ sym (append_assoc x (flat xs) (flat ys))

joined-append : (xs ys : List (List ℕ)) → joined (xs ++ ys) ≡ joined xs ++ joined ys
joined-append [] ys = refl
joined-append (x ∷ xs) ys =
    ap (λ t. 0x3B ∷ (x ++ t)) (joined-append xs ys)
    ∙ ap (λ t. 0x3B ∷ t) (sym (append_assoc x (joined xs) (joined ys)))

then_spells :
    (xs ys fs gs : List (List ℕ))
    → IsWritten xs fs
    → IsWritten ys gs
    → IsWritten (xs ++ ys) (fs ++ gs)
then_spells xs ys fs gs h k =
    flat-append xs ys ∙ ap₂ (λ s t. s ++ t) h k ∙ sym (joined-append fs gs)

domain_text-spells :
    (domain : List ℕ) → IsWritten (domain_text domain) (when_there domain_front domain)
domain_text-spells [] = refl
domain_text-spells (byte ∷ domain) = refl

path_text-spells : (path : List ℕ) → IsWritten (path_text path) (when_there path_front path)
path_text-spells [] = refl
path_text-spells (byte ∷ path) = refl

age_text-spells : (age : Option ℤ) → IsWritten (age_text age) (age_fields age)
age_text-spells none = refl
age_text-spells (some age) = refl

secure_text-spells : (b : Bool) → IsWritten (secure_text b) (flag_fields secure_field b)
secure_text-spells true = refl
secure_text-spells false = refl

http_only_text-spells : (b : Bool) → IsWritten (http_only_text b) (flag_fields http_only_field b)
http_only_text-spells true = refl
http_only_text-spells false = refl

same_site_text-spells :
    (site : CookieSameSite) → IsWritten (same_site_text site ∷ []) (site_fields site)
same_site_text-spells unspecified = refl
same_site_text-spells lax = refl
same_site_text-spells strict = refl
same_site_text-spells none_site = refl

abbrev pub attributes : CookieOptions → List (List ℕ)
attributes options =
    domain_text options.domain
    ++ path_text options.path
    ++ age_text options.max_age_seconds
    ++ secure_text options.secure
    ++ http_only_text options.http_only
    ++ same_site_text options.same_site ∷ []

pub attributes-spells : (o : CookieOptions) → flat (attributes o) ≡ joined (asked_fields o)
attributes-spells o =
    let d = domain_text o.domain in
    let p = path_text o.path in
    let a = age_text o.max_age_seconds in
    let s = secure_text o.secure in
    let h = http_only_text o.http_only in
    let df = when_there domain_front o.domain in
    let pf = when_there path_front o.path in
    let af = age_fields o.max_age_seconds in
    let sf = flag_fields secure_field o.secure in
    let hf = flag_fields http_only_field o.http_only in
    then_spells (d ++ p ++ a ++ s ++ h) (same_site_text o.same_site ∷ [])
      (df ++ pf ++ af ++ sf ++ hf) (site_fields o.same_site)
      (then_spells (d ++ p ++ a ++ s) h (df ++ pf ++ af ++ sf) hf
        (then_spells (d ++ p ++ a) s (df ++ pf ++ af) sf
          (then_spells (d ++ p) a (df ++ pf) af
            (then_spells d p df pf (domain_text-spells o.domain) (path_text-spells o.path))
            (age_text-spells o.max_age_seconds))
          (secure_text-spells o.secure))
        (http_only_text-spells o.http_only))
      (same_site_text-spells o.same_site)
