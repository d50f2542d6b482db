-- ===== src/Web/Policy.antt =====
-- The tests of text of src/Web/PolicyInternal.h. `Trim` and `Token` are those of Web.Cookies, which the
-- source has twice.
use server_core.Base.{
  ℕ, ◌+◌, Bool, true, false, not, ◌&&◌, ◌||◌, Option, none, some, List, [], ◌∷◌, ltb, leb, ◌==◌,
  if◌then◌else◌, length, drop,
}
use server_core.Base.Text.{contains_byte, before, behind}
use server_core.Core.Endpoint.{
  v6, same_family, IpAddress, colon, is_empty, decimal, at_most, parse_address,
}
use server_core.Web.Cookies.{all_bytes, front_is}

abbrev pub lower_ascii : ℕ → ℕ
lower_ascii c = if leb 0x41 c && leb c 0x5A then c + 0x20 else c

abbrev pub lower : List ℕ → List ℕ
lower [] = []
lower (c ∷ text) = lower_ascii c ∷ lower text

-- `Same`
abbrev pub same_text : List ℕ → List ℕ → Bool
same_text [] [] = true
same_text (x ∷ xs) (y ∷ ys) = lower_ascii x == lower_ascii y && same_text xs ys
same_text _ _ = false

-- `Port`: digits alone, as `std::from_chars` reads an unsigned number.
abbrev pub port_of : List ℕ → Option ℕ
port_of text = at_most 65535 (decimal text)

abbrev pub is_some {ℓ} : {A : Type ℓ} → Option A → Bool
is_some none = false
is_some (some a) = true

-- A byte that is not printable, or one of "/@\?#,;" and the quotation mark.
abbrev authority_byte : ℕ → Bool
authority_byte c =
    ltb 32 c
    && ltb c 127
    && not (contains_byte c (0x2F ∷ 0x40 ∷ 0x5C ∷ 0x3F ∷ 0x23 ∷ 0x2C ∷ 0x3B ∷ 0x22 ∷ []))

abbrev host_byte : ℕ → Bool
host_byte c =
    c == 0x2E
    || c == 0x2D
    || (leb 0x30 c && leb c 0x39)
    || (leb 0x61 (lower_ascii c) && leb (lower_ascii c) 0x7A)

abbrev host_bytes : List ℕ → Bool
host_bytes host = not (is_empty host) && all_bytes host_byte host

abbrev plain_v6 : Option IpAddress → Bool
plain_v6 none = false
plain_v6 (some a) = same_family a.family v6 && a.scope == 0

-- What follows a bracket: nothing, or a colon and a port.
abbrev pub port_behind : List ℕ → Option ℕ
port_behind [] = some 0
port_behind (c ∷ text) = if c == colon then port_of text else none

unfoldable pub authority : List ℕ → Bool
unfolding parse_address
authority text =
    if is_empty text || ltb 255 (length text) || not (all_bytes authority_byte text)
    then false
    else if front_is 0x5B text
    then contains_byte 0x5D text
      && leb 2 (length (before 0x5D text))
      && plain_v6 (parse_address (drop 1 (before 0x5D text)))
      && is_some (port_behind (behind 0x5D text))
    else if contains_byte colon text
    then is_some (port_of (behind colon text)) && host_bytes (before colon text)
    else host_bytes text
