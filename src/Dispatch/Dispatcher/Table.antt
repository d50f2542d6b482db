-- ===== src/Dispatch/Dispatcher/Table.antt =====
-- What a registration does to the table of src/Dispatch/Dispatcher.cpp, and what later calls leave of it.
use server_core.Base.{
  ℕ, ◌≡◌, ◌≢◌, refl, sym, subst, ap, ◌∙◌, ◌⊎◌, inl, inr, Bool, true, false, Option, none, some,
  List, [], ◌∷◌, arith, some-injective, ==_iff, if◌then◌else◌, Bool-cases,
}
use server_core.Core.Error.{ErrorCode, Status, allocation_failure}
use server_core.Web.RoutePattern.{same_bytes}
use server_core.Dispatch.Dispatcher.{
  Registered, Dispatcher, is_empty, lookup, is_some, add_handler, register, freeze,
  set_unknown_type_policy, set_logger, Change, registers, freezes, sets_policy, sets_logger,
  apply_change, apply_changes,
}

pub same_bytes-same : (xs ys : List ℕ) → same_bytes xs ys ≡ true → xs ≡ ys
same_bytes-same [] [] h = refl
same_bytes-same [] (y ∷ ys) h = cc
same_bytes-same (x ∷ xs) [] h = cc
same_bytes-same (x ∷ xs) (y ∷ ys) h = ground (arith, h, ==_iff x y, same_bytes-same xs ys)

pub same_bytes_refl : (xs : List ℕ) → same_bytes xs xs ≡ true
same_bytes_refl [] = refl
same_bytes_refl (x ∷ xs) = ground (arith, ==_iff x x, same_bytes_refl xs)

refused :
    (granted : Bool) (code : Status)
    → (code ≢ ErrorCode.ok)
    → (if granted then code else allocation_failure) ≢ ErrorCode.ok
refused true code h = h
refused false code h = λ e. cc

module _ {H : Type 0} where
  abbrev pub entry : H → ℕ → Registered H
  entry h maximum = record { handler = h; maximum_raw_body_size = maximum }

  abbrev pub added : List ℕ → H → ℕ → Dispatcher H → Dispatcher H
  added t h maximum d = record d { handlers = (t, entry h maximum) ∷ d.handlers }

  -- A registration is refused and changes nothing, or it adds its handler to an open table that has
  -- none for the type.
  abbrev pub Outcome : List ℕ → Option H → ℕ → Dispatcher H → Status × Dispatcher H → Type 0
  Outcome t handler maximum d out =
      ((status : Status) × (status ≢ ErrorCode.ok) × (out ≡ (status, d)))
      ⊎ ((h : H) × (handler ≡ some h)
          × (lookup t d.handlers ≡ none)
          × (out ≡ (ErrorCode.ok, added t h maximum d)))

  is_some-none : (r : Option (Registered H)) → is_some r ≡ false → r ≡ none
  is_some-none none h = refl
  is_some-none (some r) h = cc

  add_handler-Outcome :
      (granted : Bool) (t : List ℕ) (maximum : ℕ) (d : Dispatcher H) (handler : Option H)
      → Outcome t handler maximum d (add_handler granted t maximum d handler)
  unfolding add_handler
  add_handler-Outcome granted t maximum d none =
      inl (_, refused granted ErrorCode.invalid_argument (λ e. cc), refl)
  add_handler-Outcome false t maximum d (some h) = inl (allocation_failure, (λ e. cc), refl)
  add_handler-Outcome true t maximum d (some h) =
      elim (Bool-cases (is_some (lookup t d.handlers))) [
        | inl s ↦ inl (ErrorCode.already_exists, (λ e. cc), simp s)
        | inr s ↦ inr (h, refl, is_some-none (lookup t d.handlers) s, simp s)
      ]

  pub register-Outcome :
      (granted : Bool) (t : List ℕ) (handler : Option H) (maximum : ℕ) (d : Dispatcher H)
      → Outcome t handler maximum d (register granted t handler maximum d)
  unfolding register
  register-Outcome granted t handler maximum d = elim (Bool-cases d.frozen) [
    | inl f ↦ inl (
      if granted then ErrorCode.closed else allocation_failure,
      refused granted ErrorCode.closed (λ e. cc),
      simp f,
    )
    | inr f ↦ elim (Bool-cases (is_empty t)) [
      | inl e ↦ inl (
        if granted then ErrorCode.invalid_argument else allocation_failure,
        refused granted ErrorCode.invalid_argument (λ e. cc),
        simp (f, e),
      )
      | inr e ↦
          let same : register granted t handler maximum d
              ≡ add_handler granted t maximum d handler =
            simp (f, e) in
          subst (Outcome t handler maximum d) (sym same)
            (add_handler-Outcome granted t maximum d handler)
    ]
  ]

  register-lookup :
      (granted : Bool) (other : List ℕ) (handler : Option H) (maximum : ℕ) (t : List ℕ)
      (r : Registered H) (d : Dispatcher H)
      → lookup t d.handlers ≡ some r
      → lookup t (register granted other handler maximum d).1.handlers ≡ some r
  register-lookup granted other handler maximum t r d h =
      elim (register-Outcome granted other handler maximum d) [
        | inl (_, _, e) ↦ rw e h
        | inr (x, _, absent, e) ↦ rw e (elim (Bool-cases (same_bytes other t)) [
          | inl s ↦ cc (h, absent, ap (λ k. lookup k d.handlers) (same_bytes-same other t s))
          | inr s ↦ rw s h
        ])
      ]

  -- A handler that is known stays known, whatever is called.
  apply_change-lookup :
      (change : Change H) (t : List ℕ) (r : Registered H) (d : Dispatcher H)
      → lookup t d.handlers ≡ some r
      → lookup t (apply_change change d).handlers ≡ some r
  unfolding apply_change freeze set_unknown_type_policy set_logger
  apply_change-lookup (registers granted other handler maximum) t r d h =
      register-lookup granted other handler maximum t r d h
  apply_change-lookup freezes t r d h = h
  apply_change-lookup (sets_policy policy) t r d h = h
  apply_change-lookup (sets_logger has_logger) t r d h = h

  pub apply_changes-lookup :
      (changes : List (Change H)) (t : List ℕ) (r : Registered H) (d : Dispatcher H)
      → lookup t d.handlers ≡ some r
      → lookup t (apply_changes changes d).handlers ≡ some r
  unfolding apply_changes
  apply_changes-lookup [] t r d h = h
  apply_changes-lookup (change ∷ changes) t r d h =
      apply_changes-lookup changes t r (apply_change change d) (apply_change-lookup change t r d h)

  pub registered-lookup :
      (granted : Bool) (t : List ℕ) (h : H) (maximum : ℕ) (d e : Dispatcher H)
      → register granted t (some h) maximum d ≡ (ErrorCode.ok, e)
      → lookup t e.handlers ≡ some (entry h maximum)
  registered-lookup granted t h maximum d e k =
      elim (register-Outcome granted t (some h) maximum d) [
        | inl (status, bad, q) ↦ absurd (bad (ap (λ x. x.0) (sym q ∙ k)))
        | inr (x, same, _, q) ↦
            subst (λ z. lookup t z.handlers ≡ some (entry h maximum)) (ap (λ z. z.1) (sym q ∙ k))
              (rw (same_bytes_refl t)
                (ap (λ y. some (entry y maximum)) (sym (some-injective h x same))))
      ]
