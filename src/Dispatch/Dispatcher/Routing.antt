-- ===== src/Dispatch/Dispatcher/Routing.antt =====
-- A handler that was registered gets the messages of its type, and no call takes it out or replaces it.
use server_core.Base.{
  ℕ, ◌≤◌, ◌<◌, ◌≡◌, ◌≢◌, refl, sym, subst, ap, ◌∙◌, ◌⊎◌, inl, inr, Bool, true, false, some, List,
  [], ◌∷◌, ltb, ltb→le, ltb→lt, Bool-cases,
}
use server_core.Core.Error.{ErrorCode, Status}
use server_core.Web.RoutePattern.{same_bytes}
use server_core.Dispatch.Dispatcher.{
  Message, Dispatcher, Effect, called, lookup, register, dispatch_found, route, dispatch, Change,
  apply_changes,
}
use server_core.Dispatch.Dispatcher.Table.{
  same_bytes-same, same_bytes_refl, entry, apply_changes-lookup, registered-lookup,
}
use server_core.Dispatch.Dispatcher.Alike.{
  apply_changes-IsAlike, registered-IsAlike, dispatch-IsAlike,
}

module _ {H : Type 0} where
  -- What a message that has a handler comes to.
  abbrev IsRouted :
      {S : Type 0}
      → (H → S → Message → Status)
      → S
      → Message
      → H
      → ℕ
      → Status × List (Effect H)
      → Type 0
  IsRouted call session m h maximum out =
      ((m.has_body ≡ false) × (out ≡ (ErrorCode.invalid_format, [])))
      ⊎ ((m.has_body ≡ true) × (maximum < m.raw_body_size) × (out ≡ (ErrorCode.too_large, [])))
      ⊎ ((m.has_body ≡ true)
          × (m.raw_body_size ≤ maximum)
          × (out ≡ (call h session m, called h ∷ [])))

  found-IsRouted :
      {S : Type 0} (call : H → S → Message → Status) (session : S) (m : Message) (h : H)
      (maximum : ℕ)
      → IsRouted call session m h maximum (dispatch_found call true session m (entry h maximum))
  unfolding dispatch_found
  found-IsRouted call session m h maximum = elim (Bool-cases m.has_body) [
    | inr b ↦ inl (b, rw b refl)
    | inl b ↦ elim (Bool-cases (ltb maximum m.raw_body_size)) [
      | inl l ↦ inr (inl (b, ltb→lt maximum m.raw_body_size l, rw (b, l) refl))
      | inr l ↦ inr (inr (b, ltb→le maximum m.raw_body_size l, rw (b, l) refl))
    ]
  ]

  route-IsRouted :
      {S : Type 0} (call : H → S → Message → Status) (session : S) (m : Message) (h : H)
      (maximum : ℕ) (d : Dispatcher H)
      → IsRouted call session m h maximum (route call true session m d (some (entry h maximum)))
  unfolding route
  route-IsRouted call session m h maximum d = found-IsRouted call session m h maximum

  registered-IsRouted :
      {S : Type 0} (call : H → S → Message → Status) (session : S) (granted : Bool) (t : List ℕ)
      (h : H) (maximum : ℕ) (d e : Dispatcher H) (changes : List (Change H)) (m : Message)
      → register granted t (some h) maximum d ≡ (ErrorCode.ok, e)
      → m.type_name ≡ t
      → IsRouted call session m h maximum
          (dispatch call true (some session) m (apply_changes changes e))
  unfolding dispatch
  registered-IsRouted call session granted t h maximum d e changes m k same =
      let known =
        ap (λ x. lookup x (apply_changes changes e).handlers) same
        ∙ apply_changes-lookup changes t (entry h maximum) e
            (registered-lookup granted t h maximum d e k) in
      subst (IsRouted call session m h maximum)
        (ap (route call true session m (apply_changes changes e)) (sym known))
        (route-IsRouted call session m h maximum (apply_changes changes e))

  -- A handler whose registration succeeded gets, whatever is registered, frozen or set afterwards, the
  -- messages of its type that have a body within its limit, once each and with its status; the others of
  -- its type are refused with InvalidFormat or TooLarge and nothing is called. A message of another type
  -- comes to what it would come to without the registration.
  pub register-dispatch :
      {S : Type 0} (call : H → S → Message → Status) (session : S) (granted : Bool) (t : List ℕ)
      (h : H) (maximum : ℕ) (d e : Dispatcher H) (changes : List (Change H)) (m : Message)
      → register granted t (some h) maximum d ≡ (ErrorCode.ok, e)
      → let out = dispatch call true (some session) m (apply_changes changes e) in
        ((m.type_name ≡ t) × IsRouted call session m h maximum out)
        ⊎ ((m.type_name ≢ t)
            × (out ≡ dispatch call true (some session) m (apply_changes changes d)))
  register-dispatch call session granted t h maximum d e changes m k =
      elim (Bool-cases (same_bytes m.type_name t)) [
        | inl s ↦
            let same = same_bytes-same m.type_name t s in
            inl (same, registered-IsRouted call session granted t h maximum d e changes m k same)
        | inr s ↦
            let n : m.type_name ≢ t = λ q. cc (s, ap (λ w. same_bytes w t) q, same_bytes_refl t) in
            inr (
              n,
              dispatch-IsAlike call session m t (apply_changes changes d) (apply_changes changes e)
                  (apply_changes-IsAlike changes t d e
                    (registered-IsAlike granted t (some h) maximum d e ErrorCode.ok k))
                  n,
            )
      ]
