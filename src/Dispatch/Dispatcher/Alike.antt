-- ===== src/Dispatch/Dispatcher/Alike.antt =====
-- A handler makes no difference to the messages of other types.
use server_core.Base.{
  ℕ, ◌≡◌, ◌≢◌, refl, sym, subst, ap, ◌∙◌, inl, inr, Bool, true, false, Option, none, some, List, [],
  ◌∷◌, Bool-cases,
}
use server_core.Core.Error.{Status}
use server_core.Web.RoutePattern.{same_bytes}
use server_core.Dispatch.Dispatcher.{
  Message, Registered, Dispatcher, is_empty, lookup, is_some, add_handler, register, freeze,
  set_unknown_type_policy, set_logger, route, dispatch, Change, registers, freezes, sets_policy,
  sets_logger, apply_change, apply_changes,
}
use server_core.Dispatch.Dispatcher.Table.{
  same_bytes-same, same_bytes_refl, added, register-Outcome,
}

module _ {H : Type 0} where
  -- Two dispatchers that differ at most in the handler of `t`.
  pub record IsAlike (t : List ℕ) (d e : Dispatcher H) : Type 0 where
    pub frozen : e.frozen ≡ d.frozen
    pub policy : e.policy ≡ d.policy
    pub logger : e.has_logger ≡ d.has_logger
    pub others : (u : List ℕ) → (u ≢ t) → lookup u e.handlers ≡ lookup u d.handlers

  add_other :
      (u v : List ℕ) (h : H) (maximum : ℕ) (d e : Dispatcher H)
      → lookup v e.handlers ≡ lookup v d.handlers
      → lookup v (added u h maximum e).handlers ≡ lookup v (added u h maximum d).handlers
  add_other u v h maximum d e same = elim (Bool-cases (same_bytes u v)) [
    | inl s ↦ rw s refl
    | inr s ↦ rw s same
  ]

  -- A handler of `t` makes no difference elsewhere.
  add_same :
      (t v : List ℕ) (h : H) (maximum : ℕ) (d : Dispatcher H)
      → (v ≢ t)
      → lookup v (added t h maximum d).handlers ≡ lookup v d.handlers
  add_same t v h maximum d n = elim (Bool-cases (same_bytes t v)) [
    | inl s ↦ absurd (n (sym (same_bytes-same t v s)))
    | inr s ↦ rw s refl
  ]

  add_handler-other :
      (granted : Bool) (u : List ℕ) (maximum : ℕ) (d e : Dispatcher H) (handler : Option H)
      (v : List ℕ)
      → lookup u e.handlers ≡ lookup u d.handlers
      → lookup v e.handlers ≡ lookup v d.handlers
      → lookup v (add_handler granted u maximum e handler).1.handlers
        ≡ lookup v (add_handler granted u maximum d handler).1.handlers
  unfolding add_handler
  add_handler-other granted u maximum d e none v here there = there
  add_handler-other false u maximum d e (some h) v here there = there
  add_handler-other true u maximum d e (some h) v here there =
      elim (Bool-cases (is_some (lookup u d.handlers))) [
        | inl s ↦ rw (ap is_some here ∙ s, s) there
        | inr s ↦ rw (ap is_some here ∙ s, s) (add_other u v h maximum d e there)
      ]

  register-other :
      (granted : Bool) (u : List ℕ) (handler : Option H) (maximum : ℕ) (d e : Dispatcher H)
      (v : List ℕ)
      → e.frozen ≡ d.frozen
      → lookup u e.handlers ≡ lookup u d.handlers
      → lookup v e.handlers ≡ lookup v d.handlers
      → lookup v (register granted u handler maximum e).1.handlers
        ≡ lookup v (register granted u handler maximum d).1.handlers
  unfolding register
  register-other granted u handler maximum d e v f here there = elim (Bool-cases d.frozen) [
    | inl s ↦ simp (f ∙ s, s) there
    | inr s ↦ elim (Bool-cases (is_empty u)) [
      | inl n ↦ simp (f ∙ s, s, n) there
      | inr n ↦ simp (f ∙ s, s, n) (add_handler-other granted u maximum d e handler v here there)
    ]
  ]

  register-flags :
      (granted : Bool) (u : List ℕ) (handler : Option H) (maximum : ℕ) (d : Dispatcher H)
      → let out = (register granted u handler maximum d).1 in
        (out.frozen ≡ d.frozen) × (out.policy ≡ d.policy) × (out.has_logger ≡ d.has_logger)
  register-flags granted u handler maximum d = elim (register-Outcome granted u handler maximum d) [
    | inl (_, _, e) ↦ rw e (refl, refl, refl)
    | inr (x, _, _, e) ↦ rw e (refl, refl, refl)
  ]

  -- Registering `t` itself changes nothing elsewhere.
  register-same :
      (granted : Bool) (t : List ℕ) (handler : Option H) (maximum : ℕ) (d : Dispatcher H)
      (v : List ℕ)
      → (v ≢ t)
      → lookup v (register granted t handler maximum d).1.handlers ≡ lookup v d.handlers
  register-same granted t handler maximum d v n =
      elim (register-Outcome granted t handler maximum d) [
        | inl (_, _, e) ↦ rw e refl
        | inr (x, _, _, e) ↦ rw e (add_same t v x maximum d n)
      ]

  registers-IsAlike :
      (granted : Bool) (u : List ℕ) (handler : Option H) (maximum : ℕ) (t : List ℕ)
      (d e : Dispatcher H)
      → IsAlike t d e
      → IsAlike t (register granted u handler maximum d).1 (register granted u handler maximum e).1
  registers-IsAlike granted u handler maximum t d e a =
      let (df, dp, dl) = register-flags granted u handler maximum d in
      let (ef, ep, el) = register-flags granted u handler maximum e in
      record {
        frozen = ef ∙ a.frozen ∙ sym df;
        policy = ep ∙ a.policy ∙ sym dp;
        logger = el ∙ a.logger ∙ sym dl;
        others = λ v n. elim (Bool-cases (same_bytes u t)) [
          | inl s ↦
              let m : v ≢ u = λ q. n (q ∙ same_bytes-same u t s) in
              register-same granted u handler maximum e v m
              ∙ a.others v n
              ∙ sym (register-same granted u handler maximum d v m)
          | inr s ↦
              register-other granted u handler maximum d e v a.frozen
                (a.others u (λ q. cc (s, ap (λ w. same_bytes w t) q, same_bytes_refl t)))
                (a.others v n)
        ];
      }

  apply_change-IsAlike :
      (change : Change H) (t : List ℕ) (d e : Dispatcher H)
      → IsAlike t d e
      → IsAlike t (apply_change change d) (apply_change change e)
  unfolding apply_change freeze set_unknown_type_policy set_logger
  apply_change-IsAlike (registers granted u handler maximum) t d e a =
      registers-IsAlike granted u handler maximum t d e a
  apply_change-IsAlike freezes t d e a = record {
    frozen = refl;
    policy = a.policy;
    logger = a.logger;
    others = a.others;
  }
  apply_change-IsAlike (sets_policy policy) t d e a = record {
    frozen = a.frozen;
    policy = refl;
    logger = a.logger;
    others = a.others;
  }
  apply_change-IsAlike (sets_logger has_logger) t d e a = record {
    frozen = a.frozen;
    policy = a.policy;
    logger = refl;
    others = a.others;
  }

  pub apply_changes-IsAlike :
      (changes : List (Change H)) (t : List ℕ) (d e : Dispatcher H)
      → IsAlike t d e
      → IsAlike t (apply_changes changes d) (apply_changes changes e)
  unfolding apply_changes
  apply_changes-IsAlike [] t d e a = a
  apply_changes-IsAlike (change ∷ changes) t d e a =
      apply_changes-IsAlike changes t (apply_change change d) (apply_change change e)
        (apply_change-IsAlike change t d e a)

  pub registered-IsAlike :
      (granted : Bool) (t : List ℕ) (handler : Option H) (maximum : ℕ) (d e : Dispatcher H)
      (status : Status)
      → register granted t handler maximum d ≡ (status, e)
      → IsAlike t d e
  registered-IsAlike granted t handler maximum d e status k =
      let (f, p, l) = register-flags granted t handler maximum d in
      subst (IsAlike t d) (ap (λ x. x.1) k) (record {
        frozen = f;
        policy = p;
        logger = l;
        others = λ v n. register-same granted t handler maximum d v n;
      })

  pub dispatch-IsAlike :
      {S : Type 0} (call : H → S → Message → Status) (session : S) (m : Message) (t : List ℕ)
      (d e : Dispatcher H)
      → IsAlike t d e
      → (m.type_name ≢ t)
      → dispatch call true (some session) m e ≡ dispatch call true (some session) m d
  unfolding dispatch route
  dispatch-IsAlike call session m t d e a n =
      rw (a.others m.type_name n) (same_route (lookup m.type_name d.handlers))
    where
      same_route :
          (r : Option (Registered H))
          → route call true session m e r ≡ route call true session m d r
      same_route (some r) = refl
      same_route none = rw (a.policy, a.logger) refl
