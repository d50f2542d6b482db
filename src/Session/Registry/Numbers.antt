-- ===== src/Session/Registry/Numbers.antt =====
-- Sets of numbers, as src/Session/SessionRegistry.cpp keeps those that it issued.
use server_core.Base.{
  ℕ, All, subst, Bool-cases, ◌≡◌, refl, sym, ap, inl, inr, true, false, List, [], ◌∷◌, arith, ◌==◌,
  ==_iff, if◌then◌else◌,
}
use server_core.Session.Registry.{contains, erase}

pub contains-erase :
    (id other : ℕ) (ids : List ℕ) → contains id ids ≡ false → contains id (erase other ids) ≡ false
contains-erase id other [] h = refl
contains-erase id other (key ∷ ids) h = ground (arith, contains-erase id other ids)

abbrev pub Distinct : List ℕ → Type 0
Distinct [] = Unit
Distinct (id ∷ ids) = (contains id ids ≡ false) × Distinct ids

pub contains-erase_self :
    (id : ℕ) (ids : List ℕ) → Distinct ids → contains id (erase id ids) ≡ false
contains-erase_self id [] d = refl
contains-erase_self id (key ∷ ids) d =
    ground (arith, contains-erase_self id ids d.1, ==_iff key id, d.0)

pub erase-Distinct : (id : ℕ) (ids : List ℕ) → Distinct ids → Distinct (erase id ids)
erase-Distinct id [] d = tt
erase-Distinct id (key ∷ ids) d =
    ground (arith, erase-Distinct id ids d.1, contains-erase key id ids d.0, d.0, d.1)

pub erase-All : (P : ℕ → Type 0) (id : ℕ) (ids : List ℕ) → All P ids → All P (erase id ids)
erase-All P id [] h = tt
erase-All P id (key ∷ ids) h = elim (Bool-cases (key == id)) [
  | inl same ↦ subst (All P) (sym (ap (λ b. if b then ids else key ∷ erase id ids) same)) h.1
  | inr other ↦
      subst (All P) (sym (ap (λ b. if b then ids else key ∷ erase id ids) other))
        (h.0, erase-All P id ids h.1)
]

pub contains-All :
    (P : ℕ → Type 0) (id : ℕ) (ids : List ℕ) → All P ids → contains id ids ≡ true → P id
contains-All P id [] h c = absurd (ground (arith, c))
contains-All P id (key ∷ ids) h c = elim (Bool-cases (key == id)) [
  | inl same ↦ subst P ((==_iff key id).0 same) h.0
  | inr other ↦ contains-All P id ids h.1 (ground (arith, c, other))
]

pub All-weaken :
    (P Q : ℕ → Type 0) (ids : List ℕ) → ((id : ℕ) → P id → Q id) → All P ids → All Q ids
All-weaken P Q [] f h = tt
All-weaken P Q (id ∷ ids) f h = (f id h.0, All-weaken P Q ids f h.1)
