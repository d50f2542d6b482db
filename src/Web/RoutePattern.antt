-- ===== src/Web/RoutePattern.antt =====
-- src/Web/RoutePattern.cpp: the patterns of routes and the paths of requests, as bytes. An output is
-- written only on success, which is `some`.
pub mod Segments
pub mod Precedence
pub mod Captures
pub mod Escapes
use server_core.Base.{
  ℕ, zero, suc, ◌+◌, ◌-◌, ◌*◌, ◌≡◌, Bool, true, false, not, ◌&&◌, ◌||◌, Option, none, some, List,
  [], ◌∷◌, ◌++◌, ltb, leb, ◌==◌, if◌then◌else◌, length, get_or, take, drop,
}
use server_core.Core.Utf8.{is_valid_utf8}

abbrev pub slash : ℕ
slash = 0x2F

abbrev pub percent : ℕ
percent = 0x25

abbrev pub open_brace : ℕ
open_brace = 0x7B

abbrev pub close_brace : ℕ
close_brace = 0x7D

-- Equality of strings.
abbrev pub same_bytes : List ℕ → List ℕ → Bool
same_bytes [] [] = true
same_bytes [] (b ∷ ys) = false
same_bytes (a ∷ xs) [] = false
same_bytes (a ∷ xs) (b ∷ ys) = a == b && same_bytes xs ys

-- `none` is -1.
abbrev pub hex_digit : ℕ → Option ℕ
hex_digit value =
    if leb 0x30 value && leb value 0x39
    then some (value - 0x30)
    else if leb 0x61 value && leb value 0x66
    then some (value - 0x61 + 10)
    else if leb 0x41 value && leb value 0x46
    then some (value - 0x41 + 10)
    else none

abbrev pub both_digits : Option ℕ → Option ℕ → Option ℕ
both_digits (some high) (some low) = some (high * 16 + low)
both_digits _ _ = none

-- A raw byte that a segment must not hold.
abbrev pub is_raw_refused : ℕ → Bool
is_raw_refused value = ltb value 33 || leb 127 value || value == 0x3F || value == 0x23

-- A decoded byte that a segment must not hold.
abbrev pub is_refused : ℕ → Bool
is_refused value = ltb value 32 || value == 127 || value == slash || value == 0x5C

abbrev pub push_byte : Option ℕ → Option (List ℕ) → Option (List ℕ)
push_byte (some value) (some decoded) = if is_refused value then none else some (value ∷ decoded)
push_byte _ _ = none

-- The loop of `DecodeSegment`, with `skip` bytes that an escape has used.
unfoldable pub decode_from : ℕ → List ℕ → Option (List ℕ)
decode_from skip [] = some []
decode_from (suc skip) (byte ∷ rest) = decode_from skip rest
decode_from zero (byte ∷ rest) =
    let plain = decode_from 0 rest in
    let behind = decode_from 2 rest in
    if is_raw_refused byte
    then none
    else if byte == percent
    then if ltb (length rest) 2
      then none
      else push_byte (both_digits (hex_digit (get_or rest 0 0)) (hex_digit (get_or rest 1 0)))
          behind
    else push_byte (some byte) plain

abbrev pub is_dots : List ℕ → Bool
is_dots decoded = same_bytes decoded (0x2E ∷ []) || same_bytes decoded (0x2E ∷ 0x2E ∷ [])

abbrev pub accept_segment : Option (List ℕ) → Option (List ℕ)
accept_segment none = none
accept_segment (some decoded) =
    if is_dots decoded || not (is_valid_utf8 decoded) then none else some decoded

unfoldable pub decode_segment : List ℕ → Option (List ℕ)
decode_segment raw = accept_segment (decode_from 0 raw)

abbrev pub onto_first : ℕ → List (List ℕ) → List (List ℕ)
onto_first byte [] = (byte ∷ []) ∷ []
onto_first byte (segment ∷ segments) = (byte ∷ segment) ∷ segments

-- The raw segments between slashes.
unfoldable pub split : List ℕ → List (List ℕ)
split [] = [] ∷ []
split (byte ∷ rest) =
    let more = split rest in if byte == slash then [] ∷ more else onto_first byte more

-- `VisitSegments`: what is visited; the leading slash is not a segment.
unfoldable pub visit_segments : List ℕ → Option (List (List ℕ))
unfolding split
visit_segments [] = none
visit_segments (byte ∷ rest) = if byte == slash then some (split rest) else none

abbrev pub identifier_start : ℕ → Bool
identifier_start value =
    (leb 0x61 value && leb value 0x7A) || (leb 0x41 value && leb value 0x5A) || value == 0x5F

abbrev pub identifier_rest : List ℕ → Bool
identifier_rest [] = true
identifier_rest (value ∷ name) =
    (identifier_start value || (leb 0x30 value && leb value 0x39)) && identifier_rest name

abbrev pub valid_parameter_name : List ℕ → Bool
valid_parameter_name [] = false
valid_parameter_name (value ∷ name) = identifier_start value && identifier_rest (value ∷ name)

pub record RouteSegment : Type 0 where
  pub value : List ℕ
  pub parameter : Bool

abbrev pub has_brace : List ℕ → Bool
has_brace [] = false
has_brace (byte ∷ raw) = byte == open_brace || byte == close_brace || has_brace raw

abbrev pub has_name : List ℕ → List (List ℕ) → Bool
has_name name [] = false
has_name name (other ∷ names) = same_bytes name other || has_name name names

abbrev pub static_segment : Option (List ℕ) → Option RouteSegment
static_segment none = none
static_segment (some decoded) = some (record { value = decoded; parameter = false })

-- One segment of a pattern, after segments with the parameters `names`.
unfoldable pub compile_segment : List (List ℕ) → List ℕ → Option RouteSegment
compile_segment names raw =
    let name = take (length raw - 2) (drop 1 raw) in
    if has_brace raw
    then if ltb (length raw) 3
        || not (get_or raw 0 0 == open_brace)
        || not (get_or raw (length raw - 1) 0 == close_brace)
        || not (valid_parameter_name name)
        || has_name name names
      then none
      else some (record { value = name; parameter = true })
    else static_segment (decode_segment raw)

abbrev pub names_with : RouteSegment → List (List ℕ) → List (List ℕ)
names_with segment names = if segment.parameter then segment.value ∷ names else names

abbrev pub followed_by : {A : Type 0} → A → Option (List A) → Option (List A)
followed_by a none = none
followed_by a (some list) = some (a ∷ list)

unfoldable pub compile_segments : List (List ℕ) → List (List ℕ) → Option (List RouteSegment)
compile_segments names [] = some []
compile_segments names (raw ∷ raws) = elim (compile_segment names raw) [
  | none ↦ none
  | some segment ↦ followed_by segment (compile_segments (names_with segment names) raws)
]

unfoldable pub compile_route_pattern : List ℕ → Option (List RouteSegment)
compile_route_pattern pattern = elim (visit_segments pattern) [
  | none ↦ none
  | some raws ↦ compile_segments [] raws
]

unfoldable pub decode_segments : List (List ℕ) → Option (List (List ℕ))
decode_segments [] = some []
decode_segments (raw ∷ raws) = elim (decode_segment raw) [
  | none ↦ none
  | some segment ↦ followed_by segment (decode_segments raws)
]

unfoldable pub decode_route_path : List ℕ → Option (List (List ℕ))
decode_route_path raw_path = elim (visit_segments raw_path) [
  | none ↦ none
  | some raws ↦ decode_segments raws
]

abbrev pub segment_matches : RouteSegment → List ℕ → Bool
segment_matches segment part =
    if segment.parameter then not (length part == 0) else same_bytes segment.value part

-- The two lengths are compared first, and the segments after that.
unfoldable pub matches_route_pattern : List RouteSegment → List (List ℕ) → Bool
matches_route_pattern [] [] = true
matches_route_pattern [] (part ∷ path) = false
matches_route_pattern (segment ∷ pattern) [] = false
matches_route_pattern (segment ∷ pattern) (part ∷ path) =
    segment_matches segment part && matches_route_pattern pattern path

abbrev pub same_segment : RouteSegment → RouteSegment → Bool
same_segment left right =
    if left.parameter
    then right.parameter
    else not right.parameter && same_bytes left.value right.value

unfoldable pub same_route_shape : List RouteSegment → List RouteSegment → Bool
same_route_shape [] [] = true
same_route_shape [] (r ∷ right) = false
same_route_shape (l ∷ left) [] = false
same_route_shape (l ∷ left) (r ∷ right) = same_segment l r && same_route_shape left right

-- The loop of `MoreSpecificRoutePattern`, for patterns of one length.
unfoldable pub more_specific_from : List RouteSegment → List RouteSegment → Bool
more_specific_from (l ∷ left) (r ∷ right) =
    let rest = more_specific_from left right in
    if l.parameter && not r.parameter
    then false
    else if not l.parameter && r.parameter
    then true
    else rest
more_specific_from _ _ = false

unfoldable pub more_specific_route_pattern : List RouteSegment → List RouteSegment → Bool
unfolding more_specific_from
more_specific_route_pattern left right =
    if length left == length right then more_specific_from left right else false

-- The names and values of the parameters.
unfoldable pub capture_route_parameters : List RouteSegment → List (List ℕ) → List (List ℕ × List ℕ)
capture_route_parameters (segment ∷ pattern) (part ∷ path) =
    let rest = capture_route_parameters pattern path in
    if segment.parameter then (segment.value, part) ∷ rest else rest
capture_route_parameters _ _ = []
