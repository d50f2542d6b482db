-- ===== src/Dispatch/Dispatcher.antt =====
-- src/Dispatch/Dispatcher.cpp. A message is what the dispatcher asks of it: its type, whether it has a
-- body, and how long that is. Sessions and handlers are parameters, `call` is what a handler returns.
-- What a dispatch does outside is given back as a list. Each call is one step: registering and freezing
-- hold the lock alone, and a dispatch reads the table once. Whether memory is granted is an argument.
pub mod Table
pub mod Alike
pub mod Routing
pub mod Frozen
use server_core.Base.{
  ℕ, ◌≡◌, Bool, true, false, not, ◌&&◌, ◌||◌, Option, none, some, List, [], ◌∷◌, ltb, ◌==◌,
  if◌then◌else◌,
}
use server_core.Core.Error.{ErrorCode, Status, allocation_failure}
use server_core.Web.RoutePattern.{same_bytes}

pub record Message : Type 0 where
  pub type_name : List ℕ
  pub has_body : Bool
  pub raw_body_size : ℕ

pub data UnknownTypePolicy : Type 0 where
  log_and_ignore disconnect : UnknownTypePolicy

-- `RegisteredHandler`
pub record Registered (H : Type 0) : Type 0 where
  pub handler : H
  pub maximum_raw_body_size : ℕ

pub record Dispatcher (H : Type 0) : Type 0 where
  pub handlers : List (List ℕ × Registered H)
  pub frozen : Bool
  pub policy : UnknownTypePolicy
  pub has_logger : Bool

-- What a dispatch does: a line of the log about a type, a disconnection, or a call of a handler.
pub data Effect (H : Type 0) : Type 0 where
  logged : List ℕ → Effect H
  disconnected : Status → Effect H
  called : H → Effect H

abbrev is_empty : List ℕ → Bool
is_empty [] = true
is_empty (byte ∷ text) = false

module _ {H : Type 0} where
  abbrev pub lookup : List ℕ → List (List ℕ × Registered H) → Option (Registered H)
  lookup key [] = none
  lookup key ((other, registered) ∷ handlers) =
      let rest = lookup key handlers in if same_bytes other key then some registered else rest

  abbrev is_some : Option (Registered H) → Bool
  is_some none = false
  is_some (some r) = true

  -- The rest of a registration, once the table is open and the type has a name.
  unfoldable pub add_handler : Bool → List ℕ → ℕ → Dispatcher H → Option H → Status × Dispatcher H
  add_handler granted type_name maximum d none =
      (if granted then ErrorCode.invalid_argument else allocation_failure, d)
  add_handler granted type_name maximum d (some h) =
      if not granted
      then (allocation_failure, d)
      else if is_some (lookup type_name d.handlers)
      then (ErrorCode.already_exists, d)
      else (
        ErrorCode.ok,
        record d {
          handlers =
              (type_name, record { handler = h; maximum_raw_body_size = maximum }) ∷ d.handlers;
        },
      )

  -- An empty handler is `none`.
  unfoldable pub register : Bool → List ℕ → Option H → ℕ → Dispatcher H → Status × Dispatcher H
  unfolding add_handler
  register granted type_name handler maximum d =
      if d.frozen
      then (if granted then ErrorCode.closed else allocation_failure, d)
      else if is_empty type_name
      then (if granted then ErrorCode.invalid_argument else allocation_failure, d)
      else add_handler granted type_name maximum d handler

  unfoldable pub freeze : Dispatcher H → Dispatcher H
  freeze d = record d { frozen = true }

  abbrev pub is_frozen : Dispatcher H → Bool
  is_frozen d = d.frozen

  unfoldable pub set_unknown_type_policy : UnknownTypePolicy → Dispatcher H → Dispatcher H
  set_unknown_type_policy policy d = record d { policy = policy }

  unfoldable pub set_logger : Bool → Dispatcher H → Dispatcher H
  set_logger has_logger d = record d { has_logger = has_logger }

  abbrev pub log_line : Bool → List ℕ → List (Effect H)
  log_line true type_name = logged type_name ∷ []
  log_line false type_name = []

  -- A type that nothing is registered for.
  unfoldable pub dispatch_unknown :
      Bool → UnknownTypePolicy → Bool → List ℕ → Status × List (Effect H)
  dispatch_unknown true log_and_ignore has_logger type_name =
      (ErrorCode.ok, log_line has_logger type_name)
  dispatch_unknown true disconnect has_logger type_name =
      let line = log_line has_logger type_name in
      (ErrorCode.unknown_type, line_then line (disconnected ErrorCode.unknown_type))
    where
      line_then : List (Effect H) → Effect H → List (Effect H)
      line_then [] e = e ∷ []
      line_then (l ∷ ls) e = l ∷ line_then ls e
  dispatch_unknown false log_and_ignore true type_name = (allocation_failure, [])
  dispatch_unknown false log_and_ignore false type_name = (ErrorCode.ok, [])
  dispatch_unknown false disconnect has_logger type_name =
      (allocation_failure, disconnected ErrorCode.unknown_type ∷ [])

  unfoldable pub dispatch_found :
      {S : Type 0}
      → (H → S → Message → Status)
      → Bool
      → S
      → Message
      → Registered H
      → Status × List (Effect H)
  dispatch_found call granted session m r =
      if not m.has_body
      then (if granted then ErrorCode.invalid_format else allocation_failure, [])
      else if ltb r.maximum_raw_body_size m.raw_body_size
      then (if granted then ErrorCode.too_large else allocation_failure, [])
      else (call r.handler session m, called r.handler ∷ [])

  -- The message goes to what the table holds for its type.
  unfoldable pub route :
      {S : Type 0}
      → (H → S → Message → Status)
      → Bool
      → S
      → Message
      → Dispatcher H
      → Option (Registered H)
      → Status × List (Effect H)
  unfolding dispatch_found dispatch_unknown
  route call granted session m d (some r) = dispatch_found call granted session m r
  route call granted session m d none = dispatch_unknown granted d.policy d.has_logger m.type_name

  -- A null session is `none`.
  unfoldable pub dispatch :
      {S : Type 0}
      → (H → S → Message → Status)
      → Bool
      → Option S
      → Message
      → Dispatcher H
      → Status × List (Effect H)
  unfolding route
  dispatch call granted none m d =
      (if granted then ErrorCode.invalid_argument else allocation_failure, [])
  dispatch call granted (some session) m d =
      route call granted session m d (lookup m.type_name d.handlers)

-- The calls that change a dispatcher.
pub data Change (H : Type 0) : Type 0 where
  registers : (granted : Bool) (type_name : List ℕ) (handler : Option H) (maximum : ℕ) → Change H
  freezes : Change H
  sets_policy : UnknownTypePolicy → Change H
  sets_logger : Bool → Change H

module _ {H : Type 0} where
  unfoldable pub apply_change : Change H → Dispatcher H → Dispatcher H
  unfolding register freeze set_unknown_type_policy set_logger
  apply_change (registers granted type_name handler maximum) d =
      (register granted type_name handler maximum d).1
  apply_change freezes d = freeze d
  apply_change (sets_policy policy) d = set_unknown_type_policy policy d
  apply_change (sets_logger has_logger) d = set_logger has_logger d

  unfoldable pub apply_changes : List (Change H) → Dispatcher H → Dispatcher H
  unfolding apply_change
  apply_changes [] d = d
  apply_changes (change ∷ changes) d = apply_changes changes (apply_change change d)
