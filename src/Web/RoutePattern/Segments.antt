-- ===== src/Web/RoutePattern/Segments.antt =====
-- What a decoded segment can hold, and how a path is cut at its slashes.
use server_core.Base.{
  ◌≤◌, ◌↔◌, ℕ, zero, suc, ◌≡◌, ◌≢◌, refl, sym, ap, ◌∙◌, true, false, Option, none, some, List, [],
  ◌∷◌, ◌++◌, arith, ◌==◌, ==_iff, if◌then◌else◌, length, get_or, All, Bool-cases, Option-cases,
  some-injective, inl, inr, subst,
}
use server_core.Core.Utf8.{is_valid_utf8}
use server_core.Web.RoutePattern.{
  slash, hex_digit, both_digits, is_refused, push_byte, decode_from, is_dots, accept_segment,
  decode_segment, onto_first, split, visit_segments, followed_by, decode_segments,
  decode_route_path,
}

abbrev pub IsAllowed : ℕ → Type 0
IsAllowed byte = (32 ≤ byte) × (byte ≢ 127) × (byte ≢ 0x2F) × (byte ≢ 0x5C)

pub is_refused-IsAllowed : (byte : ℕ) → (is_refused byte ≡ false) ↔ IsAllowed byte
is_refused-IsAllowed byte = (
  λ h. ground (arith, h, ==_iff byte 127, ==_iff byte 0x2F, ==_iff byte 0x5C),
  λ h. ground (arith, h, ==_iff byte 127, ==_iff byte 0x2F, ==_iff byte 0x5C),
)

-- No separator, no control byte, no step to another directory, and well-formed text.
pub record IsSafe (segment : List ℕ) : Type 0 where
  pub allowed : All IsAllowed segment
  pub named : is_dots segment ≡ false
  pub text : is_valid_utf8 segment ≡ true

push_byte-IsAllowed :
    (byte : Option ℕ) (rest : Option (List ℕ)) (decoded : List ℕ)
    → push_byte byte rest ≡ some decoded
    → ((tail : List ℕ) → rest ≡ some tail → All IsAllowed tail)
    → All IsAllowed decoded
push_byte-IsAllowed none rest decoded h f = absurd (ground (arith, h))
push_byte-IsAllowed (some byte) none decoded h f = absurd (ground (arith, h))
push_byte-IsAllowed (some byte) (some tail) decoded h f = elim (Bool-cases (is_refused byte)) [
  | inl bad ↦ absurd (ground (arith, h, bad))
  | inr fine ↦
      subst (All IsAllowed)
        (some-injective (byte ∷ tail) decoded
          (sym (ap (λ b. if b then none else some (byte ∷ tail)) fine) ∙ h))
        ((is_refused-IsAllowed byte).0 fine, f tail refl)
]

decode_from-IsAllowed :
    (skip : ℕ) (raw decoded : List ℕ) → decode_from skip raw ≡ some decoded → All IsAllowed decoded
unfolding decode_from
decode_from-IsAllowed skip [] decoded h = subst (All IsAllowed) (some-injective [] decoded h) tt
decode_from-IsAllowed (suc skip) (byte ∷ rest) decoded h = decode_from-IsAllowed skip rest decoded h
decode_from-IsAllowed zero (byte ∷ rest) decoded h =
    let escape = both_digits (hex_digit (get_or rest 0 0)) (hex_digit (get_or rest 1 0)) in
    ground (
      arith,
      h,
      push_byte-IsAllowed (some byte) (decode_from 0 rest) decoded,
      push_byte-IsAllowed escape (decode_from 2 rest) decoded,
      decode_from-IsAllowed 0 rest,
      decode_from-IsAllowed 2 rest,
    )

decode_segment-IsSafe : (raw segment : List ℕ) → decode_segment raw ≡ some segment → IsSafe segment
unfolding decode_segment
decode_segment-IsSafe raw segment h = elim (Option-cases (decode_from 0 raw)) [
  | inl e ↦ absurd (ground (arith, sym (ap accept_segment e) ∙ h))
  | inr (decoded, e) ↦
      let (named, text, same) = accepted decoded (sym (ap accept_segment e) ∙ h) in
      subst IsSafe same
        (record { allowed = decode_from-IsAllowed 0 raw decoded e; named = named; text = text })
]
  where
    accepted :
        (decoded : List ℕ)
        → accept_segment (some decoded) ≡ some segment
        → (is_dots decoded ≡ false) × (is_valid_utf8 decoded ≡ true) × (decoded ≡ segment)
    accepted decoded k = ground (arith, k)

followed_by-some :
    {A : Type 0} (a : A) (rest : Option (List A)) (out : List A)
    → followed_by a rest ≡ some out
    → (tail : List A) × (rest ≡ some tail) × (out ≡ a ∷ tail)
followed_by-some a none out h = absurd (ground (arith, h))
followed_by-some a (some tail) out h = (tail, refl, sym (some-injective (a ∷ tail) out h))

abbrev or_none : Option (List ℕ) → (List ℕ → Option (List (List ℕ))) → Option (List (List ℕ))
or_none none f = none
or_none (some segment) f = f segment

decode_segments-IsSafe :
    (raws path : List (List ℕ))
    → decode_segments raws ≡ some path
    → All IsSafe path × (length path ≡ length raws)
unfolding decode_segments
decode_segments-IsSafe [] path h =
    subst (λ p. All IsSafe p × (length p ≡ 0)) (some-injective [] path h) (tt, refl)
decode_segments-IsSafe (raw ∷ raws) path h = elim (Option-cases (decode_segment raw)) [
  | inl e ↦ absurd (ground (arith, h, e))
  | inr (segment, e) ↦
      let (tail, rest, same) =
        followed_by-some segment (decode_segments raws) path (ground (arith, h, e)) in
      let (safe, count) = decode_segments-IsSafe raws tail rest in
      subst (λ p. All IsSafe p × (length p ≡ suc (length raws))) (sym same)
        ((decode_segment-IsSafe raw segment e, safe), ap suc count)
]

-- The segments with the slashes between them.
abbrev pub with_slashes : List (List ℕ) → List ℕ
with_slashes [] = []
with_slashes (segment ∷ []) = segment
with_slashes (segment ∷ next ∷ segments) = segment ++ slash ∷ with_slashes (next ∷ segments)

abbrev pub HasNoSlash : List ℕ → Type 0
HasNoSlash segment = All (λ byte. byte ≢ slash) segment

split-some : (raw : List ℕ) → (first : List ℕ) × (more : List (List ℕ)) × (split raw ≡ first ∷ more)
unfolding split
split-some [] = ([], [], refl)
split-some (byte ∷ rest) =
    let (first, more, e) = split-some rest in
    elim (Bool-cases (byte == slash)) [
      | inl cut ↦ (
        [],
        split rest,
        ap (λ b. if b then [] ∷ split rest else onto_first byte (split rest)) cut,
      )
      | inr kept ↦ (
        byte ∷ first,
        more,
        ap (λ b. if b then [] ∷ split rest else onto_first byte (split rest)) kept
            ∙ ap (onto_first byte) e,
      )
    ]

with_slashes-onto :
    (byte : ℕ) (first : List ℕ) (more : List (List ℕ))
    → with_slashes ((byte ∷ first) ∷ more) ≡ byte ∷ with_slashes (first ∷ more)
with_slashes-onto byte first [] = refl
with_slashes-onto byte first (next ∷ more) = refl

-- The cut loses nothing, and no segment holds a slash.
split-with_slashes : (raw : List ℕ) → (with_slashes (split raw) ≡ raw) × All HasNoSlash (split raw)
unfolding split
split-with_slashes [] = (refl, (tt, tt))
split-with_slashes (byte ∷ rest) =
    let (first, more, e) = split-some rest in
    let (whole, free) = split-with_slashes rest in
    let whole1 : with_slashes (first ∷ more) ≡ rest = sym (ap with_slashes e) ∙ whole in
    let free1 : All HasNoSlash (first ∷ more) = subst (All HasNoSlash) e free in
    elim (Bool-cases (byte == slash)) [
      | inl cut ↦
          let same : split (byte ∷ rest) ≡ [] ∷ (first ∷ more) =
            ap (λ b. if b then [] ∷ split rest else onto_first byte (split rest)) cut
            ∙ ap (λ t. [] ∷ t) e in
          subst (λ s. (with_slashes s ≡ byte ∷ rest) × All HasNoSlash s) (sym same)
            (
              ap (λ b. b ∷ with_slashes (first ∷ more)) (sym ((==_iff byte slash).0 cut))
                  ∙ ap (λ t. byte ∷ t) whole1,
              (tt, free1),
            )
      | inr kept ↦
          let same : split (byte ∷ rest) ≡ (byte ∷ first) ∷ more =
            ap (λ b. if b then [] ∷ split rest else onto_first byte (split rest)) kept
            ∙ ap (onto_first byte) e in
          let other : byte ≢ slash = λ h. absurd (ground (arith, kept, (==_iff byte slash).1 h)) in
          subst (λ s. (with_slashes s ≡ byte ∷ rest) × All HasNoSlash s) (sym same)
            (
              with_slashes-onto byte first more ∙ ap (λ t. byte ∷ t) whole1,
              ((other, free1.0), free1.1),
            )
    ]

-- What a path is cut into, and what its segments become.
pub record IsDecoded (raw_path : List ℕ) (path : List (List ℕ)) : Type 0 where
  pub raws : List (List ℕ)
  pub whole : raw_path ≡ slash ∷ with_slashes raws
  pub free : All HasNoSlash raws
  pub each : decode_segments raws ≡ some path
  pub count : length path ≡ length raws
  pub safe : All IsSafe path

-- A path is accepted only if it begins with a slash and is decoded segment by segment, with no
-- segment lost or added; and then no segment holds a separator, a control byte, a step to another
-- directory or malformed UTF-8, whatever was written with percent signs.
pub decode_route_path-IsDecoded :
    (raw_path : List ℕ) (path : List (List ℕ))
    → decode_route_path raw_path ≡ some path
    → IsDecoded raw_path path
unfolding decode_route_path visit_segments
decode_route_path-IsDecoded [] path h = absurd (ground (arith, h))
decode_route_path-IsDecoded (byte ∷ rest) path h = elim (Bool-cases (byte == slash)) [
  | inr other ↦ absurd (ground (arith, h, other))
  | inl cut ↦
      let decoded : decode_segments (split rest) ≡ some path = ground (arith, h, cut) in
      let (safe, count) = decode_segments-IsSafe (split rest) path decoded in
      let (whole, free) = split-with_slashes rest in
      record {
        raws = split rest;
        whole = ap (λ b. b ∷ rest) ((==_iff byte slash).0 cut) ∙ ap (λ t. slash ∷ t) (sym whole);
        free = free;
        each = decoded;
        count = count;
        safe = safe;
      }
]
