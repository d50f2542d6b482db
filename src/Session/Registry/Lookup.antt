-- ===== src/Session/Registry/Lookup.antt =====
-- Registering and removing a session, seen through `Find`.
use server_core.Base.{
  ℕ, ◌≡◌, ◌≢◌, refl, ◌⊎◌, Bool, false, none, some, List, [], ◌∷◌, arith, ◌==◌, ==_iff,
  if◌then◌else◌,
}
use server_core.Core.Error.{ErrorCode, is_ok}
use server_core.Session.Registry.{Registry, invalid, lookup, remove, register, unregister, find}

module _ {S : Type 0} where
  -- No number is a key twice.
  abbrev pub Unique : List (ℕ × S) → Type 0
  Unique [] = Unit
  Unique ((id, session) ∷ sessions) = (lookup id sessions ≡ none) × Unique sessions

  lookup-remove_other :
      (id other : ℕ) (sessions : List (ℕ × S))
      → id ≢ other
      → lookup other (remove id sessions) ≡ lookup other sessions
  lookup-remove_other id other [] h = refl
  lookup-remove_other id other ((key, session) ∷ sessions) h =
      ground (arith, lookup-remove_other id other sessions h, ==_iff key id, ==_iff key other)

  lookup-remove_self :
      (id : ℕ) (sessions : List (ℕ × S)) → Unique sessions → lookup id (remove id sessions) ≡ none
  lookup-remove_self id [] u = refl
  lookup-remove_self id ((key, session) ∷ sessions) u =
      ground (arith, lookup-remove_self id sessions u.1, ==_iff key id, u.0)

  pub lookup-remove-none :
      (id other : ℕ) (sessions : List (ℕ × S))
      → lookup id sessions ≡ none
      → lookup id (remove other sessions) ≡ none
  lookup-remove-none id other [] h = refl
  lookup-remove-none id other ((key, session) ∷ sessions) h =
      ground (arith, lookup-remove-none id other sessions, h)

  -- A registration makes the session known under its number and changes no other, or it fails and
  -- changes nothing.
  pub register-find :
      (granted : Bool) (id : ℕ) (session : S) (r : Registry S) (other : ℕ)
      → let out = register granted (some (id, session)) r in
        ((out.0 ≡ ErrorCode.ok)
          × (find other out.1 ≡ (if other == id then some session else find other r)))
        ⊎ ((is_ok out.0 ≡ false) × (out.1 ≡ r))
  unfolding register find
  register-find granted id session r other =
      ground (arith, ==_iff id invalid, ==_iff other id, ==_iff id other, ==_iff other invalid)

  -- Taking a session out makes its number unknown and changes no other, or the number was unknown
  -- and nothing changes.
  pub unregister-find :
      (id : ℕ) (r : Registry S) (other : ℕ)
      → Unique r.sessions
      → let out = unregister id r in
        ((out.0 ≡ ErrorCode.ok) × (find other out.1 ≡ (if other == id then none else find other r)))
        ⊎ ((is_ok out.0 ≡ false) × (find id r ≡ none) × (out.1 ≡ r))
  unfolding unregister find
  unregister-find id r other u = ground (
    arith,
    ==_iff id invalid,
    ==_iff other id,
    ==_iff other invalid,
    lookup-remove_self id r.sessions u,
    lookup-remove_other id other r.sessions,
  )
