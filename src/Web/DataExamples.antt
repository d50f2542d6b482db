-- ===== src/Web/DataExamples.antt =====
-- Request data at concrete inputs.
use server_core.Base.{
  ℕ, ◌≤◌, ◌≡◌, refl, true, false, some, List, [], ◌∷◌, arith, All, ◌++◌, replicate,
}
use server_core.Base.Integers.{pos}
use server_core.Core.Error.{ErrorCode, value, failed}
use server_core.Core.Utf8.{is_valid_utf8}
use server_core.Base.Text.{behind}
use server_core.Core.Endpoint.{is_empty, hex_value}
use server_core.Web.ResponseEncoding.{encode_chunk}
use server_core.Web.ResponseEncoding.Chunks.{encode_chunk-line}
use server_core.Web.RequestData.{
  FieldLimits, Field, percent_decode_component, percent_encode_component, parse_form_url_encoded,
  parse_query_parameters,
}
use server_core.Web.RequestData.Percent.{percent_decode-encode}
use server_core.Web.RequestData.Fields.{Fits, parse-joined}
use server_core.Web.Cookies.{
  parse_cookie_header, lax, none_site, CookieOptions, serialize_set_cookie,
}
use server_core.Web.Cookies.Parsing.{parse_cookie_header-cookies}
use server_core.Web.Cookies.Printing.{IsSetCookie, serialize_set_cookie-IsSetCookie}

-- "a b", and what a form makes of it: "a+b".
abbrev spaced_text : List ℕ
spaced_text = 0x61 ∷ 0x20 ∷ 0x62 ∷ []

spaced_encoded :
    percent_encode_component (λ n. true) spaced_text true 3 ≡ value (0x61 ∷ 0x2B ∷ 0x62 ∷ [])
unfolding percent_encode_component is_valid_utf8
spaced_encoded = refl

spaced_too_large :
    percent_encode_component (λ n. true) spaced_text false 4 ≡ failed ErrorCode.too_large
unfolding percent_encode_component is_valid_utf8
spaced_too_large = refl

percent_decode-encode_example :
    (percent_decode_component true (0x61 ∷ 0x25 ∷ 0x32 ∷ 0x30 ∷ 0x62 ∷ []) false 3
      ≡ value spaced_text)
    × (5 ≤ 8)
unfolding percent_encode_component is_valid_utf8
percent_decode-encode_example =
    percent_decode-encode (λ n. true) false 8 3 spaced_text (0x61 ∷ 0x25 ∷ 0x32 ∷ 0x30 ∷ 0x62 ∷ [])
      (omega arith, (omega arith, (omega arith, tt))) refl (omega arith) (omega arith)

-- A sign that is not an escape.
percent_alone :
    percent_decode_component true (0x25 ∷ 0x34 ∷ []) false 8 ≡ failed ErrorCode.invalid_format
unfolding percent_decode_component
percent_alone = refl

abbrev limits : FieldLimits
limits = record { max_bytes = 64; max_fields = 2; max_name_bytes = 4; max_value_bytes = 8 }

abbrev two_fields : List Field
two_fields = (0x6B ∷ [], spaced_text) ∷ (0x6B ∷ [], []) ∷ []

two_fields-Fits : All (Fits limits) two_fields
unfolding is_valid_utf8
two_fields-Fits = (
  record {
    name_bytes = (omega arith, tt);
    text_bytes = (omega arith, (omega arith, (omega arith, tt)));
    name_text = refl;
    text_text = refl;
    short_name = omega arith;
    short_text = omega arith;
  },
  (
    record {
      name_bytes = (omega arith, tt);
      text_bytes = tt;
      name_text = refl;
      text_text = refl;
      short_name = omega arith;
      short_text = omega arith;
    },
    tt,
  ),
)

-- "/?k=a%20b&k="
parse-joined_example :
    (parse_form_url_encoded true (0x6B ∷ 0x3D ∷ 0x61 ∷ 0x2B ∷ 0x62 ∷ 0x26 ∷ 0x6B ∷ 0x3D ∷ []) limits
      ≡ value two_fields)
    × (parse_query_parameters true
          (0x2F ∷ 0x3F ∷ 0x6B ∷ 0x3D ∷ 0x61 ∷ 0x25 ∷ 0x32 ∷ 0x30 ∷ 0x62 ∷ 0x26 ∷ 0x6B ∷ 0x3D ∷ [])
          limits
        ≡ value two_fields)
parse-joined_example =
    parse-joined limits (0x2F ∷ []) two_fields refl (omega arith) (omega arith) (omega arith)
      two_fields-Fits refl refl

-- "a=1; b="
abbrev two_cookies : List Field
two_cookies = (0x61 ∷ [], 0x31 ∷ []) ∷ (0x62 ∷ [], []) ∷ []

parse_cookie_header-cookies_example :
    parse_cookie_header true (0x61 ∷ 0x3D ∷ 0x31 ∷ 0x3B ∷ 0x20 ∷ 0x62 ∷ 0x3D ∷ []) limits
    ≡ value two_cookies
parse_cookie_header-cookies_example =
    parse_cookie_header-cookies limits two_cookies refl (omega arith) (omega arith) (
      record { token = refl; text = refl; short_name = omega arith; short_text = omega arith },
      (
        record { token = refl; text = refl; short_name = omega arith; short_text = omega arith },
        tt,
      ),
    )

-- Quotes around a value are taken off.
quoted_cookie :
    parse_cookie_header true (0x61 ∷ 0x3D ∷ 0x22 ∷ 0x31 ∷ 0x22 ∷ []) limits
    ≡ value ((0x61 ∷ [], 0x31 ∷ []) ∷ [])
unfolding parse_cookie_header
quoted_cookie = refl

abbrev plain_options : CookieOptions
plain_options = record {
  domain = [];
  path = 0x2F ∷ [];
  max_age_seconds = some (pos 60);
  same_site = lax;
  secure = false;
  http_only = false;
  max_bytes = 48;
}

-- "a=1; Path=/; Max-Age=60; SameSite=Lax"
abbrev plain_cookie : List ℕ
plain_cookie =
    0x61 ∷ 0x3D ∷ 0x31 ∷ 0x3B ∷ 0x20 ∷ 0x50 ∷ 0x61 ∷ 0x74 ∷ 0x68 ∷ 0x3D ∷ 0x2F ∷ 0x3B ∷ 0x20 ∷ 0x4D
    ∷ 0x61 ∷ 0x78 ∷ 0x2D ∷ 0x41 ∷ 0x67 ∷ 0x65 ∷ 0x3D ∷ 0x36 ∷ 0x30 ∷ 0x3B ∷ 0x20 ∷ 0x53 ∷ 0x61
    ∷ 0x6D ∷ 0x65 ∷ 0x53 ∷ 0x69 ∷ 0x74 ∷ 0x65 ∷ 0x3D ∷ 0x4C ∷ 0x61 ∷ 0x78 ∷ []

serialize_set_cookie-IsSetCookie_example :
    IsSetCookie (0x61 ∷ []) (0x31 ∷ []) plain_options plain_cookie
unfolding serialize_set_cookie
serialize_set_cookie-IsSetCookie_example =
    serialize_set_cookie-IsSetCookie (λ n. true) (0x61 ∷ []) (0x31 ∷ []) plain_options plain_cookie
      refl

-- SameSite=None asks for Secure.
insecure_none :
    serialize_set_cookie (λ n. true) (0x61 ∷ []) [] (record plain_options { same_site = none_site })
    ≡ failed ErrorCode.invalid_argument
unfolding serialize_set_cookie
insecure_none = refl

abbrev seventeen : List ℕ
seventeen = replicate 17 0x41

encode_chunk-run :
    encode_chunk true seventeen 100
    ≡ value (0x31 ∷ 0x31 ∷ 0x0D ∷ 0x0A ∷ (seventeen ++ 0x0D ∷ 0x0A ∷ []))
unfolding encode_chunk
encode_chunk-run = refl

encode_chunk_empty : encode_chunk true [] 100 ≡ failed ErrorCode.invalid_argument
unfolding encode_chunk
encode_chunk_empty = refl

encode_chunk-line_example :
    (hex_value 0 (0x31 ∷ 0x31 ∷ []) ≡ some 17)
    × (behind 0x0D (0x31 ∷ 0x31 ∷ 0x0D ∷ 0x0A ∷ (seventeen ++ 0x0D ∷ 0x0A ∷ []))
        ≡ 0x0A ∷ (seventeen ++ 0x0D ∷ 0x0A ∷ []))
    × (is_empty seventeen ≡ false)
    × (17 ≤ 100)
encode_chunk-line_example =
    encode_chunk-line true seventeen 100
      (0x31 ∷ 0x31 ∷ 0x0D ∷ 0x0A ∷ (seventeen ++ 0x0D ∷ 0x0A ∷ [])) encode_chunk-run
