-- ===== src/Web/RoutePattern/Captures.antt =====
-- The parameters of a route that matches.
use server_core.Base.{
  ℕ, ◌≡◌, ◌<◌, refl, true, List, [], ◌∷◌, arith, ==_iff, if◌then◌else◌, length, All,
}
use server_core.Web.RoutePattern.{RouteSegment, matches_route_pattern, capture_route_parameters}
use server_core.Web.RoutePattern.Precedence.{same_bytes-eq}

abbrev pub value_or_empty : List (List ℕ × List ℕ) → List ℕ
value_or_empty [] = []
value_or_empty ((name, value) ∷ captured) = value

abbrev pub others : List (List ℕ × List ℕ) → List (List ℕ × List ℕ)
others [] = []
others (parameter ∷ captured) = captured

-- The path that a pattern makes of values for its parameters, in their order.
abbrev pub fill : List RouteSegment → List (List ℕ × List ℕ) → List (List ℕ)
fill [] captured = []
fill (segment ∷ pattern) captured =
    let filled = fill pattern (others captured) in
    let fixed = fill pattern captured in
    if segment.parameter then value_or_empty captured ∷ filled else segment.value ∷ fixed

-- The names of the parameters of a pattern.
abbrev pub parameters : List RouteSegment → List (List ℕ)
parameters [] = []
parameters (segment ∷ pattern) =
    let rest = parameters pattern in if segment.parameter then segment.value ∷ rest else rest

abbrev pub names : List (List ℕ × List ℕ) → List (List ℕ)
names [] = []
names ((name, value) ∷ captured) = name ∷ names captured

-- Of a path that matches, the captured values are not empty, they stand under the names of the
-- pattern in their order, and put into the pattern they give back the path.
pub capture-fill :
    (pattern : List RouteSegment) (path : List (List ℕ))
    → matches_route_pattern pattern path ≡ true
    → (fill pattern (capture_route_parameters pattern path) ≡ path)
      × (names (capture_route_parameters pattern path) ≡ parameters pattern)
      × All (λ captured. 0 < length captured.1) (capture_route_parameters pattern path)
unfolding matches_route_pattern capture_route_parameters
capture-fill [] [] h = (refl, refl, tt)
capture-fill [] (part ∷ path) h = absurd (ground (arith, h))
capture-fill (segment ∷ pattern) [] h = absurd (ground (arith, h))
capture-fill (segment ∷ pattern) (part ∷ path) h =
    ground (
      arith,
      h,
      capture-fill pattern path,
      same_bytes-eq segment.value part,
      ==_iff (length part) 0,
    )
