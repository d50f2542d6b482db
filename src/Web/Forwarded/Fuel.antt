-- ===== src/Web/Forwarded/Fuel.antt =====
-- The loop of `ParseForwarded` over the pairs of a hop ends: each pair takes its equals sign.
use server_core.Base.{
  ℕ, zero, suc, ◌≤◌, ◌<◌, ◌≡◌, ◌≢◌, refl, Bool, true, false, not, ◌||◌, Option, none, some, List,
  [], ◌∷◌, arith, ltb, leb, inl, inr, ◌==◌, if◌then◌else◌, length, drop, Bool-cases,
}
use server_core.Base.Text.{contains_byte, behind}
use server_core.Core.Error.{ErrorCode, Result, value, failed}
use server_core.Core.Endpoint.{is_empty}
use server_core.Web.Cookies.{is_token, trim_front, trim_back, trim, front_is}
use server_core.Web.Forwarded.{
  Hop, empty_hop, quote, push_char, quoted, is_end, token_end, accept_token, parse_value, has_name,
  set_part, name_of, value_of, after_pair, with_value, hop_from, first_hop, then_hops,
  parse_forwarded,
}

length-trim_front : (text : List ℕ) → length (trim_front text) ≤ length text
length-trim_front [] = omega arith
length-trim_front (c ∷ text) = ground (arith, length-trim_front text)

length-trim_back : (text : List ℕ) → length (trim_back text) ≤ length text
length-trim_back [] = omega arith
length-trim_back (c ∷ text) = ground (arith, length-trim_back text)

length-trim : (text : List ℕ) → length (trim text) ≤ length text
length-trim text = omega (arith, length-trim_front text, length-trim_back (trim_front text))

length-behind :
    (byte : ℕ) (text : List ℕ)
    → contains_byte byte text ≡ true
    → length (behind byte text) < length text
length-behind byte [] h = cc
length-behind byte (c ∷ text) h = ground (arith, h, length-behind byte text)

length-value_of :
    (text : List ℕ) → contains_byte 0x3D (trim text) ≡ true → length (value_of text) < length text
length-value_of text h = omega (
  arith,
  length-trim text,
  length-behind 0x3D (trim text) h,
  length-trim (behind 0x3D (trim text)),
)

-- What is left of a text of that length.
abbrev Left : ℕ → Option (List ℕ × List ℕ) → Type 0
Left n none = Unit
Left n (some (parsed, rest)) = length rest ≤ n

Left-if :
    (b : Bool) (n : ℕ) (o p : Option (List ℕ × List ℕ))
    → Left n o
    → Left n p
    → Left n (if b then o else p)
Left-if true n o p h k = h
Left-if false n o p h k = k

Left-le : (m n : ℕ) (o : Option (List ℕ × List ℕ)) → m ≤ n → Left m o → Left n o
Left-le m n none h k = tt
Left-le m n (some (parsed, rest)) h k = omega (arith, h, k)

push_char-Left : (c n : ℕ) (o : Option (List ℕ × List ℕ)) → Left n o → Left n (push_char c o)
push_char-Left c n none h = tt
push_char-Left c n (some (parsed, rest)) h =
    Left-if (ltb c 32 || leb 127 c) n none (some (c ∷ parsed, rest)) tt h

quoted-Left : (text : List ℕ) → Left (length text) (quoted text)
unfolding quoted
quoted-Left [] = tt
quoted-Left (c ∷ []) = Left-if (c == quote) 1 (some ([], [])) none (omega arith) tt
quoted-Left (c ∷ d ∷ text) =
    let n = length (c ∷ d ∷ text) in
    let plain = Left-le (length (d ∷ text)) n _ (omega arith) (quoted-Left (d ∷ text)) in
    let escaped = Left-le (length text) n _ (omega arith) (quoted-Left text) in
    Left-if (c == quote) n _ _ (omega arith) (
      Left-if (c == 0x5C) n _ _ (push_char-Left d n (quoted text) escaped)
        (push_char-Left c n (quoted (d ∷ text)) plain))

length-token_end : (text : List ℕ) → length ((token_end text).1) ≤ length text
length-token_end [] = omega arith
length-token_end (c ∷ text) = elim (Bool-cases (is_end c)) [
  | inl h ↦ rw h (omega arith)
  | inr h ↦ rw h (omega (arith, length-token_end text))
]

parse_value-Left : (text : List ℕ) → Left (length text) (parse_value text)
parse_value-Left text =
    Left-if (front_is quote text) (length text) (quoted (drop 1 text))
      (accept_token (token_end text))
      (Left-le (length (drop 1 text)) (length text) _ (shorter text) (quoted-Left (drop 1 text)))
      (Left-if (is_token ((token_end text).0)) (length text) (some (token_end text)) none
        (length-token_end text) tt)
  where
    shorter : (text : List ℕ) → length (drop 1 text) ≤ length text
    shorter [] = omega arith
    shorter (c ∷ text) = omega arith

-- Whether the loop can answer that way on what is left.
abbrev Finishes : (Hop → List ℕ → Result (Hop × List ℕ)) → ℕ → Type 0
Finishes next n =
    (hop : Hop) (rest : List ℕ) → length rest < n → next hop rest ≢ failed ErrorCode.timeout

refused :
    {A : Type 0}
    → (r : Result A) → r ≡ failed ErrorCode.invalid_format
    → r ≢ failed ErrorCode.timeout
refused r h k = cc

in_time : {A : Type 0} → (a : A) → value a ≢ failed ErrorCode.timeout
in_time a k = cc

after_pair-ends :
    (next : Hop → List ℕ → Result (Hop × List ℕ)) (n : ℕ) (hop : Hop) (rest : List ℕ)
    → Finishes next n
    → length rest ≤ n
    → after_pair next hop rest ≢ failed ErrorCode.timeout
after_pair-ends next n hop [] e h k = cc
after_pair-ends next n hop (c ∷ rest) e h k = elim (Bool-cases (c == 0x2C)) [
  | inl comma ↦ elim (Bool-cases (is_empty (trim rest))) [
    | inl m ↦ refused _ (rw (comma, m) refl) k
    | inr m ↦ in_time (hop, rest) (rw (comma, m) at k)
  ]
  | inr other ↦ elim (Bool-cases (not (c == 0x3B) || is_empty rest)) [
    | inl m ↦ refused _ (rw (other, m) refl) k
    | inr m ↦ e hop rest (omega (arith, h)) (rw (other, m) at k)
  ]
]

with_value-ends :
    (next : Hop → List ℕ → Result (Hop × List ℕ)) (n : ℕ) (name : List ℕ) (hop : Hop)
    (o : Option (List ℕ × List ℕ))
    → Finishes next n
    → Left n o
    → with_value next name hop o ≢ failed ErrorCode.timeout
with_value-ends next n name hop none e h k = cc
with_value-ends next n name hop (some (parsed, rest)) e h k =
    after_pair-ends next n (set_part name parsed hop) (trim rest) e
      (omega (arith, h, length-trim rest)) k

hop_from-ends :
    (fuel : ℕ) (names : List (List ℕ)) (hop : Hop) (text : List ℕ)
    → length text < fuel
    → hop_from fuel names hop text ≢ failed ErrorCode.timeout
unfolding hop_from
hop_from-ends zero names hop text h k = absurd (omega arith)
hop_from-ends (suc fuel) names hop text h k = elim (Bool-cases (contains_byte 0x3D (trim text))) [
  | inr m ↦ refused _ (rw m refl) k
  | inl m ↦ elim (Bool-cases (not (is_token (name_of text)) || has_name (name_of text) names)) [
    | inl b ↦ refused _ (rw (m, b) refl) k
    | inr b ↦
        with_value-ends (λ hop rest. hop_from fuel (name_of text ∷ names) hop rest)
          (length (value_of text)) (name_of text) hop (parse_value (value_of text))
          (λ hop rest shorter.
            hop_from-ends fuel (name_of text ∷ names) hop rest
              (omega (arith, h, shorter, length-value_of text m)))
          (parse_value-Left (value_of text)) (rw (m, b) at k)
  ]
]

then_hops-ends :
    (next : List ℕ → Result (List Hop)) (r : Result (Hop × List ℕ))
    → ((rest : List ℕ) → next rest ≢ failed ErrorCode.timeout)
    → r ≢ failed ErrorCode.timeout
    → then_hops next r ≢ failed ErrorCode.timeout
then_hops-ends next (failed e) n h k = h (cc)
then_hops-ends next (value (hop, rest)) n h k = first (next rest) (n rest) k
  where
    first :
        (r : Result (List Hop))
        → r ≢ failed ErrorCode.timeout
        → first_hop hop r ≢ failed ErrorCode.timeout
    first (failed e) h k = h cc
    first (value hops) h k = cc

-- `ParseForwarded` ends on every text: its loop over pairs, which would answer Timeout here after more
-- rounds than there are bytes, never does.
pub parse_forwarded-ends :
    (room : ℕ) (text : List ℕ) → parse_forwarded room text ≢ failed ErrorCode.timeout
unfolding parse_forwarded
parse_forwarded-ends room [] k = cc
parse_forwarded-ends zero (c ∷ text) k = cc
parse_forwarded-ends (suc room) (c ∷ text) k =
    then_hops-ends (λ rest. parse_forwarded room rest)
      (hop_from (suc (length (c ∷ text))) [] empty_hop (c ∷ text))
      (λ rest. parse_forwarded-ends room rest)
      (hop_from-ends (suc (length (c ∷ text))) [] empty_hop (c ∷ text) (omega arith)) k
