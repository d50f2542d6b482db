-- ===== src/Dispatch/Dispatcher/Frozen.antt =====
-- A frozen dispatcher of src/Dispatch/Dispatcher.cpp keeps its table.
use server_core.Base.{ℕ, ◌≡◌, refl, ap, ◌∙◌, Bool, true, Option, List, [], ◌∷◌}
use server_core.Dispatch.Dispatcher.{
  Dispatcher, register, freeze, set_unknown_type_policy, set_logger, Change, registers, freezes,
  sets_policy, sets_logger, apply_change, apply_changes,
}

module _ {H : Type 0} where
  register-frozen :
      (granted : Bool) (t : List ℕ) (handler : Option H) (maximum : ℕ) (d : Dispatcher H)
      → d.frozen ≡ true
      → (register granted t handler maximum d).1 ≡ d
  unfolding register
  register-frozen granted t handler maximum d f = simp f

  frozen-handlers :
      (change : Change H) (d : Dispatcher H)
      → d.frozen ≡ true
      → ((apply_change change d).handlers ≡ d.handlers) × ((apply_change change d).frozen ≡ true)
  unfolding apply_change freeze set_unknown_type_policy set_logger
  frozen-handlers (registers granted t handler maximum) d f =
      let same = register-frozen granted t handler maximum d f in
      (ap (λ e. e.handlers) same, ap (λ e. e.frozen) same ∙ f)
  frozen-handlers freezes d f = (refl, refl)
  frozen-handlers (sets_policy policy) d f = (refl, f)
  frozen-handlers (sets_logger has_logger) d f = (refl, f)

  frozen-all :
      (changes : List (Change H)) (d : Dispatcher H)
      → d.frozen ≡ true
      → (apply_changes changes d).handlers ≡ d.handlers
  unfolding apply_changes
  frozen-all [] d f = refl
  frozen-all (change ∷ changes) d f =
      let (same, still) = frozen-handlers change d f in
      frozen-all changes (apply_change change d) still ∙ same

  -- Once the dispatcher is frozen, no call changes its table, which a dispatch then reads without a
  -- lock.
  pub freeze-handlers :
      (changes : List (Change H)) (d : Dispatcher H)
      → (apply_changes changes (freeze d)).handlers ≡ d.handlers
  unfolding freeze
  freeze-handlers changes d = frozen-all changes (freeze d) refl
