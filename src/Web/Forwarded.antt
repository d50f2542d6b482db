-- ===== src/Web/Forwarded.antt =====
-- The header values of src/Web/TrustedProxy.cpp: `ParseForwarded` and `List`. Text is its bytes.
pub mod Fuel
use server_core.Base.{
  ℕ, zero, suc, ◌+◌, ◌≡◌, Bool, true, false, not, ◌&&◌, ◌||◌, Option, none, some, List, [], ◌∷◌,
  ltb, leb, ◌==◌, if◌then◌else◌, length, drop,
}
use server_core.Base.Text.{contains_byte, before, behind, split_at}
use server_core.Core.Error.{ErrorCode, Result, value, failed}
use server_core.Core.Endpoint.{is_empty}
use server_core.Web.RoutePattern.{same_bytes}
use server_core.Web.Cookies.{is_token, trim, front_is}
use server_core.Web.Policy.{lower}

pub record Hop : Type 0 where
  pub node : List ℕ
  pub proto : List ℕ
  pub host : List ℕ

abbrev pub empty_hop : Hop
empty_hop = record { node = []; proto = []; host = [] }

abbrev pub quote : ℕ
quote = 0x22

abbrev pub push_char : ℕ → Option (List ℕ × List ℕ) → Option (List ℕ × List ℕ)
push_char c none = none
push_char c (some (parsed, rest)) = if ltb c 32 || leb 127 c then none else some (c ∷ parsed, rest)

-- What stands in front of the closing quotation mark, and behind it.
unfoldable pub quoted : List ℕ → Option (List ℕ × List ℕ)
quoted [] = none
quoted (c ∷ []) = if c == quote then some ([], []) else none
quoted (c ∷ d ∷ text) =
    let plain = quoted (d ∷ text) in
    let escaped = quoted text in
    if c == quote
    then some ([], d ∷ text)
    else if c == 0x5C
    then push_char d escaped
    else push_char c plain

-- One of "; ," and a tab.
abbrev pub is_end : ℕ → Bool
is_end c = c == 0x3B || c == 0x2C || c == 0x20 || c == 0x09

abbrev pub onto_token : ℕ → List ℕ × List ℕ → List ℕ × List ℕ
onto_token c (token, rest) = (c ∷ token, rest)

abbrev pub token_end : List ℕ → List ℕ × List ℕ
token_end [] = ([], [])
token_end (c ∷ text) =
    let more = token_end text in if is_end c then ([], c ∷ text) else onto_token c more

abbrev pub accept_token : List ℕ × List ℕ → Option (List ℕ × List ℕ)
accept_token (token, rest) = if is_token token then some (token, rest) else none

abbrev pub parse_value : List ℕ → Option (List ℕ × List ℕ)
parse_value text =
    if front_is quote text then quoted (drop 1 text) else accept_token (token_end text)

abbrev pub has_name : List ℕ → List (List ℕ) → Bool
has_name name [] = false
has_name name (other ∷ names) = same_bytes other name || has_name name names

abbrev for_name : List ℕ
for_name = 0x66 ∷ 0x6F ∷ 0x72 ∷ []

abbrev proto_name : List ℕ
proto_name = 0x70 ∷ 0x72 ∷ 0x6F ∷ 0x74 ∷ 0x6F ∷ []

abbrev host_name : List ℕ
host_name = 0x68 ∷ 0x6F ∷ 0x73 ∷ 0x74 ∷ []

abbrev pub set_part : List ℕ → List ℕ → Hop → Hop
set_part name parsed hop =
    if same_bytes name for_name
    then record hop { node = parsed }
    else if same_bytes name proto_name
    then record hop { proto = parsed }
    else if same_bytes name host_name
    then record hop { host = parsed }
    else hop

abbrev pub name_of : List ℕ → List ℕ
name_of text = lower (trim (before 0x3D (trim text)))

abbrev pub value_of : List ℕ → List ℕ
value_of text = trim (behind 0x3D (trim text))

-- What stands behind a pair: the next hop behind a comma, the next pair behind a semicolon. `next` is
-- the loop.
abbrev pub after_pair :
    (Hop → List ℕ → Result (Hop × List ℕ)) → Hop → List ℕ → Result (Hop × List ℕ)
after_pair next hop [] = value (hop, [])
after_pair next hop (c ∷ rest) =
    if c == 0x2C
    then if is_empty (trim rest) then failed ErrorCode.invalid_format else value (hop, rest)
    else if not (c == 0x3B) || is_empty rest
    then failed ErrorCode.invalid_format
    else next hop rest

abbrev pub with_value :
    (Hop → List ℕ → Result (Hop × List ℕ))
    → List ℕ
    → Hop
    → Option (List ℕ × List ℕ)
    → Result (Hop × List ℕ)
with_value next name hop none = failed ErrorCode.invalid_format
with_value next name hop (some (parsed, rest)) =
    after_pair next (set_part name parsed hop) (trim rest)

-- The loop over the pairs of one hop: the hop, and what follows it. A round takes a byte at least.
unfoldable pub hop_from : ℕ → List (List ℕ) → Hop → List ℕ → Result (Hop × List ℕ)
unfolding quoted
hop_from zero names hop text = failed ErrorCode.timeout
hop_from (suc fuel) names hop text =
    if not (contains_byte 0x3D (trim text))
    then failed ErrorCode.invalid_format
    else if not (is_token (name_of text)) || has_name (name_of text) names
    then failed ErrorCode.invalid_format
    else with_value (λ hop rest. hop_from fuel (name_of text ∷ names) hop rest) (name_of text) hop
        (parse_value (value_of text))

abbrev pub first_hop : Hop → Result (List Hop) → Result (List Hop)
first_hop hop (failed e) = failed e
first_hop hop (value hops) = value (hop ∷ hops)

abbrev pub then_hops : (List ℕ → Result (List Hop)) → Result (Hop × List ℕ) → Result (List Hop)
then_hops next (failed e) = failed e
then_hops next (value (hop, rest)) = first_hop hop (next rest)

-- `ParseForwarded` with room for that many hops.
unfoldable pub parse_forwarded : ℕ → List ℕ → Result (List Hop)
unfolding hop_from
parse_forwarded room [] = value []
parse_forwarded zero (c ∷ text) = failed ErrorCode.too_large
parse_forwarded (suc room) (c ∷ text) =
    then_hops (λ rest. parse_forwarded room rest)
      (hop_from (suc (length (c ∷ text))) [] empty_hop (c ∷ text))

abbrev pub first_part : List ℕ → Result (List (List ℕ)) → Result (List (List ℕ))
first_part part (failed e) = failed e
first_part part (value parts) = value (part ∷ parts)

abbrev pub list_from : ℕ → ℕ → List (List ℕ) → Result (List (List ℕ))
list_from max count [] = value []
list_from max count (part ∷ parts) =
    let more = list_from max (count + 1) parts in
    if is_empty (trim part)
    then failed ErrorCode.invalid_format
    else if leb max count
    then failed ErrorCode.too_large
    else first_part (trim part) more

-- `List`
unfoldable pub parse_list : List ℕ → ℕ → Result (List (List ℕ))
unfolding split_at
parse_list [] max = value []
parse_list (c ∷ text) max = list_from max 0 (split_at 0x2C (c ∷ text))
