-- ===== src/Session/Registry/Fresh.antt =====
-- Numbers that are issued once: over all calls on a registry, and the calls of other registries of
-- the process, which take numbers from the same counter.
use server_core.Base.{
  ℕ, All, subst, Bool-cases, ◌≤◌, ◌<◌, ◌≡◌, ◌≢◌, sym, ap, ◌∙◌, ◌⊎◌, inl, inr, Bool, true, false,
  Option, none, some, List, [], ◌∷◌, arith, ==_iff,
}
use server_core.Core.Error.{ErrorCode, is_ok, value}
use server_core.Session.Registry.{
  Registry, invalid, last_id, contains, erase, lookup, remove, empty, bind_to_current_thread,
  issue_id, discard_issued_id, register, unregister,
}
use server_core.Session.Registry.Lookup.{Unique, lookup-remove-none}
use server_core.Session.Registry.Numbers.{
  All-weaken, Distinct, contains-All, contains-erase, contains-erase_self, erase-All,
  erase-Distinct,
}

-- A call, with what the allocator answers; `elsewhere` is another registry that takes a number.
pub data Call (S : Type 0) : Type 0 where
  binds : ℕ → Call S
  issues : Bool → Call S
  discards : ℕ → Call S
  registers : Bool → Option (ℕ × S) → Call S
  unregisters : ℕ → Call S
  elsewhere : Call S

-- A number that the process gave out before the counter came to `next`.
abbrev pub IsPast : ℕ → ℕ → Type 0
IsPast next id = (next ≡ 0) ⊎ (id < next)

module _ {S : Type 0} where
  unfoldable pub step : ℕ → Registry S → Call S → ℕ × Registry S
  step next r (binds thread) = (next, (bind_to_current_thread thread r).1)
  step next r (issues granted) = ((issue_id granted next r).1, (issue_id granted next r).2)
  step next r (discards id) = (next, (discard_issued_id id r).1)
  step next r (registers granted session) = (next, (register granted session r).1)
  step next r (unregisters id) = (next, (unregister id r).1)
  step next r elsewhere = ((issue_id true next (empty {S = S})).1, r)

  unfoldable pub run : ℕ → Registry S → List (Call S) → ℕ × Registry S
  run next r [] = (next, r)
  run next r (call ∷ calls) = let out = step next r call in run out.0 out.1 calls

  -- A number that waits for no registration and comes from no counter any more.
  pub record IsSpent (id next : ℕ) (r : Registry S) : Type 0 where
    pub past : IsPast next id
    pub unissued : contains id r.issued ≡ false
    pub bounded : next ≤ last_id

  step-IsSpent :
      (id next : ℕ) (r : Registry S) (call : Call S)
      → IsSpent id next r
      → IsSpent id (step next r call).0 (step next r call).1
  unfolding step bind_to_current_thread issue_id discard_issued_id register unregister
  step-IsSpent id next r (binds thread) s = ground (arith, s.past, s.unissued, s.bounded)
  step-IsSpent id next r (issues granted) s =
      ground
        (arith, s.past, s.unissued, s.bounded, ==_iff next 0, ==_iff next last_id, ==_iff next id)
  step-IsSpent id next r (discards other) s =
      ground (arith, s.past, s.unissued, s.bounded, contains-erase id other r.issued s.unissued)
  step-IsSpent id next r (registers granted none) s = s
  step-IsSpent id next r (registers granted (some (other, session))) s =
      ground (arith, s.past, s.unissued, s.bounded, contains-erase id other r.issued s.unissued)
  step-IsSpent id next r (unregisters other) s = ground (arith, s.past, s.unissued, s.bounded)
  step-IsSpent id next r elsewhere s =
      ground (arith, s.past, s.unissued, s.bounded, ==_iff next 0, ==_iff next last_id)

  pub run-IsSpent :
      (id next : ℕ) (r : Registry S) (calls : List (Call S))
      → IsSpent id next r
      → IsSpent id (run next r calls).0 (run next r calls).1
  unfolding run
  run-IsSpent id next r [] s = s
  run-IsSpent id next r (call ∷ calls) s =
      run-IsSpent id (step next r call).0 (step next r call).1 calls (step-IsSpent id next r call s)

  -- What holds between the calls: the numbers that wait are different, and were all given out.
  pub record IsFresh (next : ℕ) (r : Registry S) : Type 0 where
    pub distinct : Distinct r.issued
    pub past : All (IsPast next) r.issued
    pub unique : Unique r.sessions
    pub bounded : next ≤ last_id

  Unique-remove : (id : ℕ) (sessions : List (ℕ × S)) → Unique sessions → Unique (remove id sessions)
  Unique-remove id [] u = tt
  Unique-remove id ((key, session) ∷ sessions) u =
      ground
        (arith, Unique-remove id sessions u.1, lookup-remove-none key id sessions u.0, u.0, u.1)

  issue-next :
      (granted : Bool) (next : ℕ) (r : Registry S)
      → next ≤ last_id
      → let out = issue_id granted next r in
        (out.1 ≤ last_id)
        × ((id : ℕ) → IsPast next id → IsPast out.1 id)
        × ((out.2 ≡ r)
            ⊎ ((next ≢ 0)
                × IsPast out.1 next
                × (out.0 ≡ value next)
                × (out.2 ≡ record r { issued = next ∷ r.issued })))
  unfolding issue_id
  issue-next granted next r h = (
    ground (arith, ==_iff next 0, ==_iff next last_id),
    λ id p. ground (arith, ==_iff next 0, ==_iff next last_id, p),
    ground (arith, ==_iff next 0, ==_iff next last_id),
  )

  unissued-next :
      (next : ℕ) (r : Registry S) → IsFresh next r → next ≢ 0 → contains next r.issued ≡ false
  unissued-next next r s h = elim (Bool-cases (contains next r.issued)) [
    | inr free ↦ free
    | inl held ↦
        let p : IsPast next next = contains-All (IsPast next) next r.issued s.past held in
        absurd (ground (arith, p, h))
  ]

  issue-IsFresh :
      (granted : Bool) (next : ℕ) (r : Registry S)
      → IsFresh next r
      → IsFresh (issue_id granted next r).1 (issue_id granted next r).2
  issue-IsFresh granted next r s =
      let (bounded, later, kept) = issue-next granted next r s.bounded in
      let next1 : ℕ = (issue_id granted next r).1 in
      let past : All (IsPast next1) r.issued =
        All-weaken (IsPast next) (IsPast next1) r.issued later s.past in
      elim kept [
        | inl same ↦
            subst (IsFresh next1) (sym same)
              (record { distinct = s.distinct; past = past; unique = s.unique; bounded = bounded })
        | inr (fresh, gone, given, grown) ↦ subst (IsFresh next1) (sym grown) (record {
          distinct = (unissued-next next r s fresh, s.distinct);
          past = (gone, past);
          unique = s.unique;
          bounded = bounded;
        })
      ]

  step-IsFresh :
      (next : ℕ) (r : Registry S) (call : Call S)
      → IsFresh next r
      → IsFresh (step next r call).0 (step next r call).1
  unfolding step bind_to_current_thread discard_issued_id register unregister
  step-IsFresh next r (binds thread) s = ground (arith, s.distinct, s.past, s.unique, s.bounded)
  step-IsFresh next r (issues granted) s = issue-IsFresh granted next r s
  step-IsFresh next r (discards id) s = ground (
    arith,
    s.distinct,
    s.past,
    s.unique,
    s.bounded,
    erase-Distinct id r.issued s.distinct,
    erase-All (IsPast next) id r.issued s.past,
  )
  step-IsFresh next r (registers granted none) s = s
  step-IsFresh next r (registers granted (some (id, session))) s = ground (
    arith,
    s.distinct,
    s.past,
    s.unique,
    s.bounded,
    erase-Distinct id r.issued s.distinct,
    erase-All (IsPast next) id r.issued s.past,
  )
  step-IsFresh next r (unregisters id) s =
      ground (arith, s.distinct, s.past, s.unique, s.bounded, Unique-remove id r.sessions s.unique)
  step-IsFresh next r elsewhere s =
      let (bounded, later, kept) = issue-next true next (empty {S = S}) s.bounded in
      record {
        distinct = s.distinct;
        past =
            All-weaken (IsPast next) (IsPast (issue_id true next (empty {S = S})).1) r.issued later
              s.past;
        unique = s.unique;
        bounded = bounded;
      }

  -- After any calls the numbers that wait for a registration differ from one another and from all
  -- that the counter may still give, and no number is a key of the registry twice.
  pub run-IsFresh :
      (next : ℕ) (r : Registry S) (calls : List (Call S))
      → IsFresh next r
      → IsFresh (run next r calls).0 (run next r calls).1
  unfolding run
  run-IsFresh next r [] s = s
  run-IsFresh next r (call ∷ calls) s =
      run-IsFresh (step next r call).0 (step next r call).1 calls (step-IsFresh next r call s)

  register-spent :
      (granted : Bool) (id next : ℕ) (session : S) (r : Registry S)
      → IsSpent id next r
      → is_ok (register granted (some (id, session)) r).0 ≡ false
  unfolding register
  register-spent granted id next session r s = ground (arith, s.unissued)

  register-IsSpent :
      (granted : Bool) (id next : ℕ) (session : S) (r : Registry S)
      → IsFresh next r
      → is_ok (register granted (some (id, session)) r).0 ≡ true
      → IsSpent id next (register granted (some (id, session)) r).1
  register-IsSpent granted id next session r s h =
      let (held, same) = accepted in
      record {
        past = contains-All (IsPast next) id r.issued s.past held;
        unissued = ap (contains id) same ∙ contains-erase_self id r.issued s.distinct;
        bounded = s.bounded;
      }
    where
      accepted :
          (contains id r.issued ≡ true)
          × ((register granted (some (id, session)) r).1.issued ≡ erase id r.issued)
      accepted = unfold register in ground (arith, h)

  -- A number that was registered is never registered again, whatever happens in between: the
  -- session may be taken out, and this and other registries may take numbers until none is left.
  pub register-register :
      (next : ℕ) (r : Registry S) (granted granted' : Bool) (id : ℕ) (session session' : S)
      (calls : List (Call S))
      → IsFresh next r
      → is_ok (register granted (some (id, session)) r).0 ≡ true
      → let out = run next (register granted (some (id, session)) r).1 calls in
        is_ok (register granted' (some (id, session')) out.1).0 ≡ false
  register-register next r granted granted' id session session' calls s h =
      let r1 : Registry S = (register granted (some (id, session)) r).1 in
      register-spent granted' id (run next r1 calls).0 session' (run next r1 calls).1
        (run-IsSpent id next r1 calls (register-IsSpent granted id next session r s h))

  -- A number that is issued is new to the registry, so that the assertion on the insertion holds,
  -- and it can be registered at once if the map can grow.
  pub issue-register :
      (next : ℕ) (r : Registry S) (id : ℕ) (session : S)
      → IsFresh next r
      → (issue_id true next r).0 ≡ value id
      → lookup id r.sessions ≡ none
      → (contains id r.issued ≡ false)
        × ((register true (some (id, session)) (issue_id true next r).2).0 ≡ ErrorCode.ok)
  issue-register next r id session s h k =
      let (e, fresh) = given in
      (ap (λ n. contains n r.issued) e ∙ unissued-next next r s fresh, registered e fresh)
    where
      given : (id ≡ next) × (next ≢ 0)
      given = unfold issue_id in ground (arith, h, ==_iff next 0)

      registered :
          id ≡ next
          → next ≢ 0
          → (register true (some (id, session)) (issue_id true next r).2).0 ≡ ErrorCode.ok
      registered e fresh =
          unfold issue_id register in
          ground (arith, e, fresh, k, ==_iff next 0, ==_iff id invalid, ==_iff next id)
