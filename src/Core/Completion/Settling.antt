-- ===== src/Core/Completion/Settling.antt =====
-- A subscription that is settled stays so, with the outcome that it has.
use server_core.Base.{
  inl, inr, Bool-cases, ℕ, ◌≡◌, refl, ◌≢◌, Bool, true, false, Option, none, some, arith, ◌==◌,
  ==_iff, ==_refl, some-injective,
}
use server_core.Core.Error.{Status}
use server_core.Core.Completion.{
  Outcome, called, discarded, Subscriptions, is_pending, settle, complete, source_complete,
  source_is_pending, bind_cancellation, reset, cancel,
}

pub settle-pending :
    (i id : ℕ) (outcome : Outcome) (s : Subscriptions)
    → is_pending i (settle id outcome s).1 ≡ true
    → (is_pending i s ≡ true) × ((id == i) ≡ false)
settle-pending i id outcome s h = ground (arith, ==_iff id i, h)

pub source-settle :
    (source : Option ℕ) (id : ℕ) (outcome : Outcome) (s : Subscriptions)
    → source_is_pending source (settle id outcome s).1 ≡ true
    → source_is_pending source s ≡ true
source-settle none id outcome s h = h
source-settle (some i) id outcome s h = (settle-pending i id outcome s h).0

pub source-issue :
    (source : Option ℕ) (n : ℕ) (s : Subscriptions)
    → source_is_pending source (record s { next = n }) ≡ source_is_pending source s
source-issue none n s = refl
source-issue (some i) n s = refl

pub source_complete-pending :
    (i : ℕ) (source : Option ℕ) (code : Status) (s : Subscriptions)
    → is_pending i (source_complete source code s) ≡ true
    → (is_pending i s ≡ true) × (source ≢ some i)
unfolding source_complete complete
source_complete-pending i none code s h = (h, λ e. cc)
source_complete-pending i (some id) code s h =
    let (p, other) = settle-pending i id (called code) s h in
    (p, λ e. cc (other, ==_refl i, some-injective id i e))

pub bind_cancellation-pending :
    (i : ℕ) (stopped : Bool) (id : ℕ) (s : Subscriptions)
    → is_pending i (bind_cancellation stopped id s) ≡ true
    → is_pending i s ≡ true
unfolding bind_cancellation complete
bind_cancellation-pending i true id s h = (settle-pending i id _ s h).0
bind_cancellation-pending i false id s h = h

pub reset-pending :
    (i id : ℕ) (s : Subscriptions) → is_pending i (reset id s) ≡ true → is_pending i s ≡ true
unfolding reset
reset-pending i id s h = (settle-pending i id discarded s h).0

pub cancel-pending :
    (i id : ℕ) (s : Subscriptions) → is_pending i (cancel id s).1 ≡ true → is_pending i s ≡ true
unfolding cancel complete
cancel-pending i id s h = (settle-pending i id _ s h).0

pub completed-over :
    (id : ℕ) (code : Status) (s : Subscriptions)
    → is_pending id (source_complete (some id) code s) ≡ false
completed-over id code s = elim (Bool-cases (is_pending id (source_complete (some id) code s))) [
  | inl p ↦ absurd ((source_complete-pending id (some id) code s p).1 refl)
  | inr p ↦ p
]
