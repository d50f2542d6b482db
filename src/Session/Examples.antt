-- ===== src/Session/Examples.antt =====
-- Runs of the session registry on small inputs.
use server_core.Base.{ℕ, ◌≡◌, refl, inr, true, false, some, List, [], ◌∷◌, arith}
use server_core.Core.Error.{is_ok, value}
use server_core.Session.Registry.{Registry, register, issue_id}
use server_core.Session.Registry.Fresh.{
  Call, issues, registers, unregisters, elsewhere, run, IsFresh, register-register,
}

-- Numbers 3 and 4 wait, and 2 is registered with the session 20.
abbrev small_registry : Registry ℕ
small_registry = record { sessions = (2, 20) ∷ []; issued = 4 ∷ 3 ∷ []; mutation_thread = some 1 }

small_registry-IsFresh : IsFresh 5 small_registry
small_registry-IsFresh = record {
  distinct = (refl, (refl, tt));
  past = (inr (omega arith), (inr (omega arith), tt));
  unique = (refl, tt);
  bounded = omega arith;
}

abbrev some_calls : List (Call ℕ)
some_calls =
    unregisters 3 ∷ elsewhere ∷ issues true ∷ registers true (some (6, 60)) ∷ issues false ∷ []

three-registered : is_ok (register true (some (3, 30)) small_registry).0 ≡ true
unfolding register
three-registered = refl

register-register_example :
    is_ok
      (register true
        (some (3, 31))
        (run 5 (register true (some (3, 30)) small_registry).1 some_calls).1).0
    ≡ false
register-register_example =
    register-register 5 small_registry true true 3 30 31 some_calls small_registry-IsFresh
      three-registered

five-issued : (issue_id true 5 small_registry).0 ≡ value 5
unfolding issue_id
five-issued = refl
