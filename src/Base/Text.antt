-- ===== src/Base/Text.antt =====
-- The searches of `std::string_view`, on the bytes of a text.
use Prim.Native.Nat.{ℕ}
use mathlib.Core.Bool.{Bool, false, ◌||◌}
use mathlib.Core.List.{List, [], ◌∷◌, ◌++◌}
use mathlib.Core.Path.{◌≡◌, refl, ap}
use native.Mathlib.Omega.{arith}
use server_core.Base.Tests.{◌==◌, ==_iff, if◌then◌else◌}

abbrev pub contains_byte : ℕ → List ℕ → Bool
contains_byte byte [] = false
contains_byte byte (other ∷ text) = other == byte || contains_byte byte text

-- The text in front of the first such byte, all of it if there is none, and the text behind it.
abbrev pub before : ℕ → List ℕ → List ℕ
before byte [] = []
before byte (other ∷ text) =
    let more = before byte text in if other == byte then [] else other ∷ more

abbrev pub behind : ℕ → List ℕ → List ℕ
behind byte [] = []
behind byte (other ∷ text) = let more = behind byte text in if other == byte then text else more

abbrev pub onto_first : ℕ → List (List ℕ) → List (List ℕ)
onto_first byte [] = (byte ∷ []) ∷ []
onto_first byte (field ∷ fields) = (byte ∷ field) ∷ fields

-- The fields between separators, the empty ones too.
unfoldable pub split_at : ℕ → List ℕ → List (List ℕ)
split_at byte [] = [] ∷ []
split_at byte (other ∷ text) =
    let more = split_at byte text in if other == byte then [] ∷ more else onto_first other more

pub contains-append :
    (byte : ℕ) (xs ys : List ℕ)
    → contains_byte byte xs ≡ false
    → contains_byte byte ys ≡ false
    → contains_byte byte (xs ++ ys) ≡ false
contains-append byte [] ys h k = k
contains-append byte (x ∷ xs) ys h k = ground (arith, h, contains-append byte xs ys)

pub contains-cons :
    (byte x : ℕ) (xs : List ℕ)
    → contains_byte byte (x ∷ xs) ≡ false
    → ((x == byte) ≡ false) × (contains_byte byte xs ≡ false)
contains-cons byte x xs h = ground (arith, h)

pub before-append :
    (byte : ℕ) (front back : List ℕ)
    → contains_byte byte front ≡ false
    → before byte (front ++ byte ∷ back) ≡ front
before-append byte [] back h = ground (arith, ==_iff byte byte)
before-append byte (x ∷ front) back h = ground (arith, h, before-append byte front back)

pub behind-append :
    (byte : ℕ) (front back : List ℕ)
    → contains_byte byte front ≡ false
    → behind byte (front ++ byte ∷ back) ≡ back
behind-append byte [] back h = ground (arith, ==_iff byte byte)
behind-append byte (x ∷ front) back h = ground (arith, h, behind-append byte front back)

pub split_at-append :
    (byte : ℕ) (front back : List ℕ)
    → contains_byte byte front ≡ false
    → split_at byte (front ++ byte ∷ back) ≡ front ∷ split_at byte back
unfolding split_at
split_at-append byte [] back h = ground (arith, ==_iff byte byte)
split_at-append byte (x ∷ front) back h =
    let (other, more) = contains-cons byte x front h in
    rw other (ap (onto_first x) (split_at-append byte front back more))

pub split_at-one :
    (byte : ℕ) (text : List ℕ) → contains_byte byte text ≡ false → split_at byte text ≡ text ∷ []
unfolding split_at
split_at-one byte [] h = refl
split_at-one byte (x ∷ text) h =
    let (other, more) = contains-cons byte x text h in
    rw other (ap (onto_first x) (split_at-one byte text more))
