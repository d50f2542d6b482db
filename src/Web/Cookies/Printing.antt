-- ===== src/Web/Cookies/Printing.antt =====
-- What `SerializeSetCookie` of src/Web/RequestData.cpp accepts, and what a reader makes of the result.
use server_core.Base.{
  ℕ, ◌≤◌, ◌≡◌, refl, sym, subst, ap, ◌∙◌, ◌⊎◌, inl, inr, Bool, true, false, not, ◌&&◌, ◌||◌, List,
  [], ◌∷◌, ◌++◌, append_assoc, arith, ◌==◌, length, Bool-cases,
}
use server_core.Core.Error.{value}
use server_core.Web.RoutePattern.{same_bytes}
use server_core.Web.RequestData.{is_empty}
use server_core.Web.Cookies.{
  all_bytes, token_byte, is_token, cookie_byte, cookie_value, front_is, is_none_site, CookieOptions,
  valid_domain, starts_with, host_prefix, secure_prefix, is_refused_cookie, path_byte, domain_text,
  path_text, age_text, secure_text, http_only_text, same_site_text, cookie_texts,
  serialize_set_cookie,
}
use server_core.Web.Cookies.Parsing.{all_bytes-weaken, is_token-bytes, cookie, cookie-free}
use server_core.Base.Text.{split_at}
use server_core.Web.RoutePattern.Precedence.{same_bytes-eq}
use server_core.Web.Cookies.Attributes.{
  six, attributes, asked_fields, attributes-spells, secure_field, root_field, domain_front,
}
use server_core.Web.Cookies.Plain.{split_at-joined, asked_fields-plain}
use server_core.Web.Cookies.Rules.{
  has_field, has_front, asked_fields-secure, asked_fields-root, asked_fields-domain,
}
use server_core.Web.Cookies.Bytes.{
  flat, append_all-flat, printable, token_byte-printable, cookie_byte-printable,
  path_byte-printable, domain_byte, domain_byte-printable, valid_domain-bytes, all_texts,
  all_texts-flat, all_texts-append, domain_text-printable, path_text-printable, age_text-printable,
  secure_text-printable, http_only_text-printable, same_site_text-printable,
}

-- What the tests in front of the output require.
record IsAccepted (name text : List ℕ) (options : CookieOptions) : Type 0 where
  pub token : is_token name ≡ true
  pub plain : cookie_value text ≡ true
  pub domain : valid_domain options.domain ≡ true
  pub sited : (is_none_site options.same_site ≡ false) ⊎ (options.secure ≡ true)
  pub secured : (starts_with secure_prefix name ≡ false) ⊎ (options.secure ≡ true)
  pub hosted :
      (starts_with host_prefix name ≡ false)
      ⊎ ((options.secure ≡ true)
          × (is_empty options.domain ≡ true)
          × (same_bytes options.path (0x2F ∷ []) ≡ true))

not-true : (b : Bool) → not b ≡ false → b ≡ true
not-true true h = refl
not-true false h = cc

unless : (a b : Bool) → (a && not b) ≡ false → (a ≡ false) ⊎ (b ≡ true)
unless false b h = inl refl
unless true b h = inr (not-true b h)

hosted-lem :
    (a b c d : Bool)
    → (a && (not b || not c || not d)) ≡ false
    → (a ≡ false) ⊎ ((b ≡ true) × (c ≡ true) × (d ≡ true))
hosted-lem false b c d h = inl refl
hosted-lem true true true true h = inr (refl, refl, refl)
hosted-lem true true true false h = cc
hosted-lem true true false d h = cc
hosted-lem true false c d h = cc

refused-lem :
    (a b c d e f g h : Bool)
    → (a || not b || not c || not d || e || f || g || h) ≡ false
    → (b ≡ true) × (c ≡ true) × (d ≡ true) × (f ≡ false) × (g ≡ false) × (h ≡ false)
refused-lem false true true true false f g h k = ground (arith, k)
refused-lem true b c d e f g h k = cc
refused-lem false false c d e f g h k = cc
refused-lem false true false d e f g h k = cc
refused-lem false true true false e f g h k = cc
refused-lem false true true true true f g h k = cc

is_refused_cookie-IsAccepted :
    (name text : List ℕ) (options : CookieOptions)
    → is_refused_cookie name text options ≡ false
    → IsAccepted name text options
is_refused_cookie-IsAccepted name text options h =
    let (token, plain, domain, site, secure, host) =
      refused-lem (options.max_bytes == 0) (is_token name) (cookie_value text)
        (valid_domain options.domain)
        (not (is_empty options.path) && not (front_is 0x2F options.path))
        (is_none_site options.same_site && not options.secure)
        (starts_with secure_prefix name && not options.secure)
        (starts_with host_prefix name
          && (not options.secure
              || not (is_empty options.domain)
              || not (same_bytes options.path (0x2F ∷ []))))
        h in
    record {
      token = token;
      plain = plain;
      domain = domain;
      sited = unless (is_none_site options.same_site) options.secure site;
      secured = unless (starts_with secure_prefix name) options.secure secure;
      hosted =
          hosted-lem (starts_with host_prefix name) options.secure (is_empty options.domain)
            (same_bytes options.path (0x2F ∷ [])) host;
    }

attributes-printable :
    (options : CookieOptions)
    → valid_domain options.domain ≡ true
    → all_bytes path_byte options.path ≡ true
    → all_texts printable (attributes options) ≡ true
attributes-printable options d p =
    six (all_texts printable) (all_texts-append printable) (domain_text options.domain)
      (path_text options.path) (age_text options.max_age_seconds) (secure_text options.secure)
      (http_only_text options.http_only) (same_site_text options.same_site ∷ [])
      (domain_text-printable options.domain (
        all_bytes-weaken domain_byte printable options.domain domain_byte-printable
          (valid_domain-bytes options.domain d)))
      (path_text-printable options.path
        (all_bytes-weaken path_byte printable options.path path_byte-printable p))
      (age_text-printable options.max_age_seconds) (secure_text-printable options.secure)
      (http_only_text-printable options.http_only) (same_site_text-printable options.same_site)

cookie_texts-printable :
    (name text : List ℕ) (options : CookieOptions)
    → IsAccepted name text options
    → all_bytes path_byte options.path ≡ true
    → all_texts printable (cookie_texts name text options) ≡ true
cookie_texts-printable name text options a p =
    rw
      (
        all_bytes-weaken token_byte printable name token_byte-printable
            (is_token-bytes name a.token),
        all_bytes-weaken cookie_byte printable text cookie_byte-printable a.plain,
      )
      (attributes-printable options a.domain p)

-- What a reader makes of the value `out`: `fields` are the texts behind its semicolons.
pub record IsSetCookie (name text : List ℕ) (options : CookieOptions) (out : List ℕ) : Type 0 where
  pub clean : all_bytes printable out ≡ true
  pub within : length out ≤ options.max_bytes
  pub fields : List (List ℕ)
  pub read : split_at 0x3B out ≡ cookie (name, text) ∷ fields
  pub asked : fields ≡ asked_fields options
  pub sited : (is_none_site options.same_site ≡ false) ⊎ (has_field secure_field fields ≡ true)
  pub secured : (starts_with secure_prefix name ≡ false) ⊎ (has_field secure_field fields ≡ true)
  pub hosted :
      (starts_with host_prefix name ≡ false)
      ⊎ ((has_field secure_field fields ≡ true)
          × (has_front domain_front fields ≡ false)
          × (has_field root_field fields ≡ true))

is_empty-nil : (text : List ℕ) → is_empty text ≡ true → text ≡ []
is_empty-nil [] h = refl
is_empty-nil (byte ∷ text) h = cc

-- The rules on the options are rules on the fields.
asked-secure :
    (P : Type 0) (options : CookieOptions)
    → P ⊎ (options.secure ≡ true)
    → P ⊎ (has_field secure_field (asked_fields options) ≡ true)
asked-secure P options (inl p) = inl p
asked-secure P options (inr s) = inr (asked_fields-secure options s)

asked-host :
    (P : Type 0) (options : CookieOptions)
    → P
      ⊎ ((options.secure ≡ true)
          × (is_empty options.domain ≡ true)
          × (same_bytes options.path (0x2F ∷ []) ≡ true))
    → P
      ⊎ ((has_field secure_field (asked_fields options) ≡ true)
          × (has_front domain_front (asked_fields options) ≡ false)
          × (has_field root_field (asked_fields options) ≡ true))
asked-host P options (inl p) = inl p
asked-host P options (inr (s, d, r)) = inr (
  asked_fields-secure options s,
  asked_fields-domain options (is_empty-nil options.domain d),
  asked_fields-root options (same_bytes-eq options.path (0x2F ∷ []) r),
)

-- A Set-Cookie value that is given out holds no control byte and keeps to the limit. Read field by field
-- between its semicolons it is the name and the value that were asked for and then exactly the attributes
-- that the options ask for, so that no part can add one. If SameSite=None is asked for, or the name begins
-- with __Secure-, it has the field Secure; if the name begins with __Host-, it has the fields Secure and
-- Path=/ and none that begins with Domain=.
pub serialize_set_cookie-IsSetCookie :
    (grows : ℕ → Bool) (name text : List ℕ) (options : CookieOptions) (out : List ℕ)
    → serialize_set_cookie grows name text options ≡ value out
    → IsSetCookie name text options out
unfolding serialize_set_cookie
serialize_set_cookie-IsSetCookie grows name text options out e =
    elim (Bool-cases (is_refused_cookie name text options)) [
      | inl r ↦ cc (rw r at e)
      | inr r ↦ elim (Bool-cases (all_bytes path_byte options.path)) [
        | inl p ↦
            let a = is_refused_cookie-IsAccepted name text options r in
            let (same, within) =
              append_all-flat grows options.max_bytes [] (cookie_texts name text options) out
                (omega arith) (rw (r, p) at e) in
            subst (IsSetCookie name text options) (sym same) (record {
              clean =
                  all_texts-flat printable (cookie_texts name text options)
                    (cookie_texts-printable name text options a p);
              fields = asked_fields options;
              read =
                  ap (split_at 0x3B) (
                    sym (append_assoc name (0x3D ∷ text) (flat (attributes options)))
                    ∙ ap (λ f. cookie (name, text) ++ f) (attributes-spells options))
                  ∙ split_at-joined (cookie (name, text)) (asked_fields options)
                      (cookie-free name text a.token a.plain)
                      (asked_fields-plain options (valid_domain-bytes options.domain a.domain) p);
              asked = refl;
              within = subst (λ o. length o ≤ options.max_bytes) same within;
              sited = asked-secure (is_none_site options.same_site ≡ false) options a.sited;
              secured = asked-secure (starts_with secure_prefix name ≡ false) options a.secured;
              hosted = asked-host (starts_with host_prefix name ≡ false) options a.hosted;
            })
        | inr p ↦ cc (rw (r, p) at e)
      ]
    ]
