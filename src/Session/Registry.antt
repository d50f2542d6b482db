-- ===== src/Session/Registry.antt =====
-- src/Session/SessionRegistry.cpp. The number that the process issues next is passed on beside the
-- registry. A compare-exchange that succeeds replaces the very value that it read, and one that fails
-- changes nothing, so that a call of `IssueId` is one step. A call from a thread that the registry is
-- not bound to ends the process by an assertion and is not modelled, nor is a session beyond its
-- handle. Whether a set or a map can grow is an argument.
pub mod Lookup
pub mod Numbers
pub mod Fresh
use server_core.Base.{
  ℕ, ◌+◌, ◌-◌, ◌^◌, ◌≡◌, Bool, true, false, not, ◌&&◌, ◌||◌, Option, none, some, List, [], ◌∷◌,
  ◌++◌, foldl, ◌==◌, if◌then◌else◌, length,
}
use server_core.Core.Error.{ErrorCode, Status, allocation_failure, Result, value, failed}

-- `SessionId::Invalid`
abbrev pub invalid : ℕ
invalid = 0

abbrev pub last_id : ℕ
last_id = 2 ^ 64 - 1

-- An `unordered_set` of numbers.
abbrev pub contains : ℕ → List ℕ → Bool
contains id [] = false
contains id (other ∷ ids) = other == id || contains id ids

abbrev pub erase : ℕ → List ℕ → List ℕ
erase id [] = []
erase id (other ∷ ids) = let rest = erase id ids in if other == id then ids else other ∷ rest

module _ {S : Type 0} where
  -- An `unordered_map` from numbers to sessions.
  abbrev pub lookup : ℕ → List (ℕ × S) → Option S
  lookup id [] = none
  lookup id ((other, session) ∷ sessions) =
      let rest = lookup id sessions in if other == id then some session else rest

  abbrev pub remove : ℕ → List (ℕ × S) → List (ℕ × S)
  remove id [] = []
  remove id ((other, session) ∷ sessions) =
      let rest = remove id sessions in if other == id then sessions else (other, session) ∷ rest

-- A thread is its number; `none` is a registry that is not bound.
pub record Registry (S : Type 0) : Type 0 where
  pub sessions : List (ℕ × S)
  pub issued : List ℕ
  pub mutation_thread : Option ℕ

abbrev pub is_some : {A : Type 0} → Option A → Bool
is_some none = false
is_some (some a) = true

module _ {S : Type 0} where
  abbrev pub empty : Registry S
  empty = record { sessions = []; issued = []; mutation_thread = none }

  unfoldable pub bind_to_current_thread : ℕ → Registry S → Status × Registry S
  bind_to_current_thread thread r = elim r.mutation_thread [
    | none ↦ (ErrorCode.ok, record r { mutation_thread = some thread })
    | some bound ↦ if bound == thread then (ErrorCode.ok, r) else (ErrorCode.already_exists, r)
  ]

  -- The result, the number that is issued next, and the registry. Zero ends the numbers.
  unfoldable pub issue_id : Bool → ℕ → Registry S → Result ℕ × ℕ × Registry S
  issue_id granted current r =
      let next = if current == last_id then 0 else current + 1 in
      if current == 0
      then (failed ErrorCode.too_large, current, r)
      else if granted
      then (value current, next, record r { issued = current ∷ r.issued })
      else (failed allocation_failure, next, r)

  unfoldable pub discard_issued_id : ℕ → Registry S → Status × Registry S
  discard_issued_id id r =
      if id == invalid
      then (ErrorCode.invalid_argument, r)
      else if not (contains id r.issued)
      then (ErrorCode.invalid_argument, r)
      else (ErrorCode.ok, record r { issued = erase id r.issued })

  -- A session comes with its number; `none` is a null pointer.
  unfoldable pub register : Bool → Option (ℕ × S) → Registry S → Status × Registry S
  register granted none r = (ErrorCode.invalid_argument, r)
  register granted (some (id, session)) r =
      if id == invalid
      then (ErrorCode.invalid_argument, r)
      else if is_some (lookup id r.sessions)
      then (ErrorCode.already_exists, r)
      else if not (contains id r.issued)
      then (ErrorCode.invalid_argument, r)
      else if not granted
      then (allocation_failure, r)
      else (
        ErrorCode.ok,
        record r { sessions = (id, session) ∷ r.sessions; issued = erase id r.issued },
      )

  unfoldable pub unregister : ℕ → Registry S → Status × Registry S
  unregister id r =
      if id == invalid
      then (ErrorCode.invalid_argument, r)
      else if not (is_some (lookup id r.sessions))
      then (ErrorCode.not_found, r)
      else (ErrorCode.ok, record r { sessions = remove id r.sessions })

  unfoldable pub find : ℕ → Registry S → Option S
  find id r = if id == invalid then none else lookup id r.sessions

  abbrev pub snapshot : List (ℕ × S) → List S
  snapshot [] = []
  snapshot ((id, session) ∷ sessions) = session ∷ snapshot sessions

  -- The visitor is a step on a state of the caller.
  unfoldable pub for_each : {C : Type 0} → Bool → (C → S → C) → Registry S → C → Status × C
  for_each granted visitor r context =
      if not granted
      then (allocation_failure, context)
      else (ErrorCode.ok, foldl visitor context (snapshot r.sessions))

  abbrev pub count : Registry S → ℕ
  count r = length r.sessions
