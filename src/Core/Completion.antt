-- ===== src/Core/Completion.antt =====
-- src/Core/CompletionSubscription.cpp, as the parts that hold a subscription see it: each one is known
-- by its number, and what became of it is kept, the newest first. An operation is one step here; Threads
-- has its critical sections and the threads that run them. A source is a weak handle: `none` is an empty
-- one. A subscription whose owner dropped it was reset, so that its expired handle is one of a settled
-- number.
pub mod Threads
pub mod Settling
use server_core.Base.{
  ℕ, ◌+◌, Bool, true, false, not, Option, none, some, List, [], ◌∷◌, ◌==◌, if◌then◌else◌,
}
use server_core.Core.Error.{ErrorCode, Status, allocation_failure, Result, value, failed}

-- The end of a subscription: its callback was called with a status, or `Reset` dropped the callback.
pub data Outcome : Type 0 where
  called : Status → Outcome
  discarded : Outcome

pub record Subscriptions : Type 0 where
  pub next : ℕ
  pub settled : List (ℕ × Outcome)

abbrev pub empty : Subscriptions
empty = record { next = 0; settled = [] }

abbrev pub outcome_of : ℕ → List (ℕ × Outcome) → Option Outcome
outcome_of id [] = none
outcome_of id ((other, outcome) ∷ settled) =
    let rest = outcome_of id settled in if other == id then some outcome else rest

abbrev pub is_none {ℓ} : {A : Type ℓ} → Option A → Bool
is_none none = true
is_none (some a) = false

-- `State::IsPending`
abbrev pub is_pending : ℕ → Subscriptions → Bool
is_pending id s = is_none (outcome_of id s.settled)

abbrev pub settle : ℕ → Outcome → Subscriptions → Bool × Subscriptions
settle id outcome s =
    if is_pending id s then (true, record s { settled = (id, outcome) ∷ s.settled }) else (false, s)

-- `State::Complete`, `State::Reset` and the callback of a stop token.
unfoldable pub complete : ℕ → Status → Subscriptions → Bool × Subscriptions
complete id code s = settle id (called code) s

unfoldable pub reset : ℕ → Subscriptions → Subscriptions
reset id s = (settle id discarded s).1

unfoldable pub cancel : ℕ → Subscriptions → Bool × Subscriptions
unfolding complete
cancel id s = complete id ErrorCode.cancelled s

abbrev pub issued : Subscriptions → Subscriptions
issued s = record s { next = s.next + 1 }

-- Whether there is a callback, and whether its state can be allocated.
unfoldable pub create : Bool → Bool → Subscriptions → Result ℕ × Subscriptions
create has_callback granted s =
    if not has_callback
    then (failed ErrorCode.invalid_argument, s)
    else if not granted
    then (failed allocation_failure, s)
    else (value s.next, issued s)

-- A token that is stopped already calls at once.
unfoldable pub bind_cancellation : Bool → ℕ → Subscriptions → Subscriptions
unfolding complete
bind_cancellation stopped id s = if stopped then (complete id ErrorCode.cancelled s).1 else s

-- `CompletionSource`
unfoldable pub source_complete : Option ℕ → Status → Subscriptions → Subscriptions
unfolding complete
source_complete none code s = s
source_complete (some id) code s = (complete id code s).1

abbrev pub source_is_pending : Option ℕ → Subscriptions → Bool
source_is_pending none s = false
source_is_pending (some id) s = is_pending id s
