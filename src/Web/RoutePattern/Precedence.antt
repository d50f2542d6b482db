-- ===== src/Web/RoutePattern/Precedence.antt =====
-- Which of two routes that match one path goes first.
use server_core.Base.{
  ℕ, suc, ◌≡◌, refl, sym, ap, ◌∙◌, ◌⊎◌, inl, inr, Bool, true, false, Bool-cases, ◌&&◌, List, [],
  ◌∷◌, arith, ==_iff, ==_refl, length,
}
use server_core.Web.RoutePattern.{
  same_bytes, RouteSegment, matches_route_pattern, same_route_shape, same_segment, segment_matches,
  more_specific_from, more_specific_route_pattern,
}

pub same_bytes_refl : (xs : List ℕ) → same_bytes xs xs ≡ true
same_bytes_refl [] = refl
same_bytes_refl (x ∷ xs) = ground (arith, ==_refl x, same_bytes_refl xs)

pub same_bytes-eq : (xs ys : List ℕ) → same_bytes xs ys ≡ true → xs ≡ ys
same_bytes-eq [] [] h = refl
same_bytes-eq [] (y ∷ ys) h = absurd (ground (arith, h))
same_bytes-eq (x ∷ xs) [] h = absurd (ground (arith, h))
same_bytes-eq (x ∷ xs) (y ∷ ys) h = ground (arith, h, ==_iff x y, same_bytes-eq xs ys)

same_bytes-common :
    (part xs ys : List ℕ)
    → same_bytes xs part ≡ true
    → same_bytes ys part ≡ true
    → same_bytes xs ys ≡ true
same_bytes-common part xs ys h k =
    ap (λ t. same_bytes t ys) (same_bytes-eq xs part h ∙ sym (same_bytes-eq ys part k))
    ∙ same_bytes_refl ys

pub matching-length :
    (pattern : List RouteSegment) (path : List (List ℕ))
    → matches_route_pattern pattern path ≡ true
    → length pattern ≡ length path
unfolding matches_route_pattern
matching-length [] [] h = refl
matching-length [] (part ∷ path) h = absurd (ground (arith, h))
matching-length (segment ∷ pattern) [] h = absurd (ground (arith, h))
matching-length (segment ∷ pattern) (part ∷ path) h =
    ap suc (matching-length pattern path (ground (arith, h)))

-- A literal stands where the other route has its first parameter that is none here.
abbrev pub Wins : List RouteSegment → List RouteSegment → Type 0
Wins (l ∷ left) (r ∷ right) =
    ((l.parameter ≡ false) × (r.parameter ≡ true)) ⊎ ((l.parameter ≡ r.parameter) × Wins left right)
Wins _ _ = ⊥

-- Exactly one of two routes goes first, or neither.
abbrev pub Decided :
    (List RouteSegment → List RouteSegment → Bool) → List RouteSegment → List RouteSegment → Type 0
Decided before left right =
    ((same_route_shape left right ≡ true)
      × (before left right ≡ false)
      × (before right left ≡ false))
    ⊎ (Wins left right × (before left right ≡ true) × (before right left ≡ false))
    ⊎ (Wins right left × (before right left ≡ true) × (before left right ≡ false))

Decided-literal :
    (l r : RouteSegment) (left right : List RouteSegment)
    → l.parameter ≡ false
    → r.parameter ≡ true
    → (more_specific_from (l ∷ left) (r ∷ right) ≡ true)
      × (more_specific_from (r ∷ right) (l ∷ left) ≡ false)
unfolding more_specific_from
Decided-literal l r left right h k = (rw (h, k) refl, rw (h, k) refl)

specific_from-same :
    (l r : RouteSegment) (left right : List RouteSegment)
    → l.parameter ≡ r.parameter
    → more_specific_from (l ∷ left) (r ∷ right) ≡ more_specific_from left right
unfolding more_specific_from
specific_from-same l r left right e = elim (Bool-cases r.parameter) [
  | inl h ↦ rw (e ∙ h, h) refl
  | inr h ↦ rw (e ∙ h, h) refl
]

-- Segments of one kind leave the choice to the others.
Decided-same :
    (l r : RouteSegment) (left right : List RouteSegment)
    → same_segment l r ≡ true
    → l.parameter ≡ r.parameter
    → Decided more_specific_from left right
    → Decided more_specific_from (l ∷ left) (r ∷ right)
unfolding same_route_shape
Decided-same l r left right s e d =
    let there = specific_from-same l r left right e in
    let back = specific_from-same r l right left (sym e) in
    elim d [
      | inl (shape, x, y) ↦ inl (rw s shape, there ∙ x, back ∙ y)
      | inr (inl (w, x, y)) ↦ inr (inl (inr (e, w), there ∙ x, back ∙ y))
      | inr (inr (w, x, y)) ↦ inr (inr (inr (sym e, w), back ∙ x, there ∙ y))
    ]

segment_matches-same :
    (l r : RouteSegment) (part : List ℕ)
    → segment_matches l part ≡ true
    → segment_matches r part ≡ true
    → l.parameter ≡ r.parameter
    → same_segment l r ≡ true
segment_matches-same l r part h k e =
    ground (arith, h, k, e, same_bytes-common part l.value r.value)

both : (a b : Bool) → (a && b) ≡ true → (a ≡ true) × (b ≡ true)
both true b h = (refl, h)
both false b h = cc

precedence_from :
    (left right : List RouteSegment) (path : List (List ℕ))
    → matches_route_pattern left path ≡ true
    → matches_route_pattern right path ≡ true
    → Decided more_specific_from left right
unfolding matches_route_pattern same_route_shape more_specific_from
precedence_from [] [] [] h k = inl (refl, refl, refl)
precedence_from (l ∷ left) right [] h k = absurd (ground (arith, h))
precedence_from [] (r ∷ right) [] h k = absurd (ground (arith, k))
precedence_from [] right (part ∷ path) h k = absurd (ground (arith, h))
precedence_from (l ∷ left) [] (part ∷ path) h k = absurd (ground (arith, k))
precedence_from (l ∷ left) (r ∷ right) (part ∷ path) h k =
    let (here, rest) = both (segment_matches l part) (matches_route_pattern left path) h in
    let (there, more) = both (segment_matches r part) (matches_route_pattern right path) k in
    elim (Bool-cases l.parameter) [
      | inl p ↦ elim (Bool-cases r.parameter) [
        | inl q ↦
            Decided-same l r left right (segment_matches-same l r part here there (p ∙ sym q))
              (p ∙ sym q) (precedence_from left right path rest more)
        | inr q ↦
            let (goes, stays) = Decided-literal r l right left q p in
            inr (inr (inl (q, p), goes, stays))
      ]
      | inr p ↦ elim (Bool-cases r.parameter) [
        | inl q ↦
            let (goes, stays) = Decided-literal l r left right p q in
            inr (inl (inl (p, q), goes, stays))
        | inr q ↦
            Decided-same l r left right (segment_matches-same l r part here there (p ∙ sym q))
              (p ∙ sym q) (precedence_from left right path rest more)
      ]
    ]

-- Of two routes that match the same path exactly one is more specific, namely the one that has a literal
-- where the kinds of their segments first differ, or neither is, and then they have the same shape.
pub more_specific-total :
    (left right : List RouteSegment) (path : List (List ℕ))
    → matches_route_pattern left path ≡ true
    → matches_route_pattern right path ≡ true
    → Decided more_specific_route_pattern left right
unfolding more_specific_route_pattern
more_specific-total left right path h k =
    let same : length left ≡ length right =
      matching-length left path h ∙ sym (matching-length right path k) in
    rw
      (
        (==_iff (length left) (length right)).1 same,
        (==_iff (length right) (length left)).1 (sym same),
      )
      (precedence_from left right path h k)

specific_from-asym :
    (left right : List RouteSegment)
    → more_specific_from left right ≡ true
    → more_specific_from right left ≡ false
unfolding more_specific_from
specific_from-asym [] right h = absurd (ground (arith, h))
specific_from-asym (l ∷ left) [] h = absurd (ground (arith, h))
specific_from-asym (l ∷ left) (r ∷ right) h = ground (arith, h, specific_from-asym left right)

specific_from_trans :
    (left middle right : List RouteSegment)
    → more_specific_from left middle ≡ true
    → more_specific_from middle right ≡ true
    → more_specific_from left right ≡ true
unfolding more_specific_from
specific_from_trans [] middle right h k = absurd (ground (arith, h))
specific_from_trans (l ∷ left) [] right h k = absurd (ground (arith, h))
specific_from_trans (l ∷ left) (m ∷ middle) [] h k = absurd (ground (arith, k))
specific_from_trans (l ∷ left) (m ∷ middle) (r ∷ right) h k =
    ground (arith, h, k, specific_from_trans left middle right)

-- Being more specific is a strict order: if one route is more specific than a second and that one
-- than a third, then the first is more specific than the third, and the second not than the first.
pub more_specific-order :
    (left middle right : List RouteSegment)
    → more_specific_route_pattern left middle ≡ true
    → more_specific_route_pattern middle right ≡ true
    → (more_specific_route_pattern left right ≡ true)
      × (more_specific_route_pattern middle left ≡ false)
unfolding more_specific_route_pattern
more_specific-order left middle right h k = ground (
  arith,
  h,
  k,
  ==_iff (length left) (length middle),
  ==_iff (length middle) (length right),
  ==_iff (length left) (length right),
  ==_iff (length middle) (length left),
  specific_from_trans left middle right,
  specific_from-asym left middle,
)
