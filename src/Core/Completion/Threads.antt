-- ===== src/Core/Completion/Threads.antt =====
-- `CompletionSubscription::State` of src/Core/CompletionSubscription.cpp under any number of threads, a
-- critical section at a time. A callback may itself complete or reset its subscription.
pub mod Quiet
use server_core.Base.{
  ℕ, suc, ◌≤◌, ◌≡◌, refl, ◌⊎◌, Bool, true, false, Option, none, some, arith, ◌==◌, ==_iff, ==_refl,
  if◌then◌else◌, some-injective,
}

pub record State : Type 0 where
  pub callback : Bool
  pub done : Bool
  pub invoking : Bool
  pub thread : Option ℕ

-- The first critical section of `Complete`: whether this call has the callback to call.
unfoldable pub claim : ℕ → State → Bool × State
claim thread s =
    if s.done
    then (false, s)
    else (true, record { callback = false; done = true; invoking = true; thread = some thread })

-- The second one, after the callback.
abbrev pub release : State → State
release s = record s { invoking = false; thread = none }

-- The critical section of `Reset` up to its wait, and whether it need not wait any longer.
abbrev pub retire : State → State
retire s = record s { done = true; callback = false }

abbrev is_thread : ℕ → Option ℕ → Bool
is_thread thread none = false
is_thread thread (some other) = other == thread

unfoldable pub may_return : ℕ → State → Bool
may_return thread s = if is_thread thread s.thread then true else if s.invoking then false else true

-- Where a thread stands: outside, in the callback, or in `Reset`, which it called outside or from the
-- callback.
pub data Place : Type 0 where
  idle calling resetting calling_resetting : Place

abbrev pub in_callback : Place → Bool
in_callback calling = true
in_callback calling_resetting = true
in_callback _ = false

abbrev pub resetting_from : Place → Place
resetting_from calling = calling_resetting
resetting_from calling_resetting = calling_resetting
resetting_from _ = resetting

abbrev pub back_from : Place → Place
back_from calling_resetting = calling
back_from _ = idle

abbrev pub move : (ℕ → Place) → ℕ → Place → ℕ → Place
move places i place j = if i == j then place else places j

pub record System : Type 0 where
  pub state : State
  pub place : ℕ → Place
  -- How often the callback was called.
  pub calls : ℕ

abbrev pub start : System
start = record {
  state = record { callback = true; done = false; invoking = false; thread = none };
  place = λ _. idle;
  calls = 0;
}

pub data Step (s : System) : System → Type 0 where
  win :
      (i : ℕ) {t : State}
      → s.place i ≡ idle
      → claim i s.state ≡ (true, t)
      → Step s (record { state = t; place = move s.place i calling; calls = suc s.calls })
  lose : (i : ℕ) {t : State} → claim i s.state ≡ (false, t) → Step s (record s { state = t })
  leave :
      (i : ℕ)
      → s.place i ≡ calling
      → Step s (record s { state = release s.state; place = move s.place i idle })
  begin_reset :
      (i : ℕ)
      → Step s
          (record s { state = retire s.state; place = move s.place i (resetting_from (s.place i)) })
  end_reset :
      (i : ℕ)
      → (s.place i ≡ resetting) ⊎ (s.place i ≡ calling_resetting)
      → may_return i s.state ≡ true
      → Step s (record s { place = move s.place i (back_from (s.place i)) })

pub data Run (s : System) : System → Type 0 where
  here : Run s s
  after : {t u : System} → Run s t → Step t u → Run s u
