-- ===== src/Web/Examples.antt =====
-- Runs of the route patterns on small inputs.
use server_core.Base.{ℕ, ◌<◌, ◌≡◌, refl, true, false, none, some, List, [], ◌∷◌, arith, All, length}
use server_core.Web.RoutePattern.{
  RouteSegment, decode_route_path, compile_route_pattern, matches_route_pattern, same_route_shape,
  more_specific_route_pattern, capture_route_parameters, decode_segment,
}
use server_core.Core.Utf8.{is_valid_utf8}
use server_core.Web.RoutePattern.Segments.{IsAllowed, IsDecoded, decode_route_path-IsDecoded}
use server_core.Web.RoutePattern.Precedence.{Decided, more_specific-total}
use server_core.Web.RoutePattern.Captures.{fill, names, parameters, capture-fill}

-- /a%41/b
abbrev raw_path : List ℕ
raw_path = 0x2F ∷ 0x61 ∷ 0x25 ∷ 0x34 ∷ 0x31 ∷ 0x2F ∷ 0x62 ∷ []

abbrev decoded_path : List (List ℕ)
decoded_path = (0x61 ∷ 0x41 ∷ []) ∷ (0x62 ∷ []) ∷ []

raw_path-decoded : decode_route_path raw_path ≡ some decoded_path
unfolding decode_route_path server_core.Web.RoutePattern.visit_segments
    server_core.Web.RoutePattern.decode_segments decode_segment
    server_core.Web.RoutePattern.decode_from is_valid_utf8
raw_path-decoded = refl

decode_route_path-IsDecoded_example : IsDecoded raw_path decoded_path
decode_route_path-IsDecoded_example =
    decode_route_path-IsDecoded raw_path decoded_path raw_path-decoded

-- /%2e%2e
dots-refused : decode_route_path (0x2F ∷ 0x25 ∷ 0x32 ∷ 0x65 ∷ 0x25 ∷ 0x32 ∷ 0x65 ∷ []) ≡ none
unfolding decode_route_path server_core.Web.RoutePattern.visit_segments
    server_core.Web.RoutePattern.decode_segments decode_segment
    server_core.Web.RoutePattern.decode_from
dots-refused = refl

abbrev static_a : RouteSegment
static_a = record { value = 0x61 ∷ 0x41 ∷ []; parameter = false }

abbrev static_b : RouteSegment
static_b = record { value = 0x62 ∷ []; parameter = false }

abbrev any_x : RouteSegment
any_x = record { value = 0x78 ∷ []; parameter = true }

any_x-compiled :
    compile_route_pattern (0x2F ∷ 0x7B ∷ 0x78 ∷ 0x7D ∷ 0x2F ∷ 0x62 ∷ [])
    ≡ some (any_x ∷ static_b ∷ [])
unfolding compile_route_pattern server_core.Web.RoutePattern.visit_segments
    server_core.Web.RoutePattern.compile_segments server_core.Web.RoutePattern.compile_segment
    decode_segment server_core.Web.RoutePattern.decode_from is_valid_utf8
any_x-compiled = refl

first-matches : matches_route_pattern (static_a ∷ any_x ∷ []) decoded_path ≡ true
unfolding matches_route_pattern
first-matches = refl

second-matches : matches_route_pattern (any_x ∷ static_b ∷ []) decoded_path ≡ true
unfolding matches_route_pattern
second-matches = refl

more_specific-total_example :
    Decided more_specific_route_pattern (static_a ∷ any_x ∷ []) (any_x ∷ static_b ∷ [])
more_specific-total_example =
    more_specific-total (static_a ∷ any_x ∷ []) (any_x ∷ static_b ∷ []) decoded_path first-matches
      second-matches

first-first : more_specific_route_pattern (static_a ∷ any_x ∷ []) (any_x ∷ static_b ∷ []) ≡ true
unfolding more_specific_route_pattern
first-first = refl

second-third : more_specific_route_pattern (any_x ∷ static_b ∷ []) (any_x ∷ any_x ∷ []) ≡ true
unfolding more_specific_route_pattern
second-third = refl

capture-fill_example :
    (fill (any_x ∷ static_b ∷ []) (capture_route_parameters (any_x ∷ static_b ∷ []) decoded_path)
      ≡ decoded_path)
    × (names (capture_route_parameters (any_x ∷ static_b ∷ []) decoded_path)
        ≡ parameters (any_x ∷ static_b ∷ []))
    × All
        (λ captured. 0 < length captured.1)
        (capture_route_parameters (any_x ∷ static_b ∷ []) decoded_path)
capture-fill_example = capture-fill (any_x ∷ static_b ∷ []) decoded_path second-matches

-- U+00E9 and a space.
abbrev some_text : List ℕ
some_text = 0xC3 ∷ 0xA9 ∷ 0x20 ∷ []

some_text-valid : is_valid_utf8 some_text ≡ true
unfolding is_valid_utf8
some_text-valid = refl

some_text-IsAllowed : All IsAllowed some_text
some_text-IsAllowed = ground arith
