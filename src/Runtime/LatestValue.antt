-- ===== src/Runtime/LatestValue.antt =====
-- `LatestValue` of include/ServerCore/Runtime/Channel.h. An operation is one step: its critical section
-- and the completions behind it. The list of watchers that `Close` moves out is empty from then on, where
-- the code keeps a null pointer that no operation follows once the value is closed. A read that waits
-- tests the version in the state in which it is called, and the rest in the state in which the wait ends.
-- An empty handle is not modelled. Whether memory is granted is an argument.
pub mod Steps
pub mod Versions
pub mod Watchers
use server_core.Base.{
  ℕ, ◌+◌, ◌-◌, ◌^◌, ◌≡◌, Bool, true, false, not, ◌&&◌, ◌||◌, Option, none, some, List, [], ◌∷◌,
  ◌++◌, length, ltb, leb, ◌==◌, if◌then◌else◌,
}
use server_core.Core.Error.{ErrorCode, Status, allocation_failure, Result, value, failed}
use server_core.Core.Completion.{
  Subscriptions, is_pending, create, reset, cancel, complete, bind_cancellation, source_complete,
}

pub record LatestOptions : Type 0 where
  pub max_retained_bytes : ℕ
  pub max_subscriptions : ℕ

-- `State`; a null value is `none`.
pub record Latest (V : Type 0) : Type 0 where
  pub options : LatestOptions
  pub bytes : ℕ
  pub current : Option V
  pub version : ℕ
  pub closed : Bool
  pub watchers : List ℕ

pub record World (V : Type 0) : Type 0 where
  pub latest : Latest V
  pub subscriptions : Subscriptions

abbrev pub last_version : ℕ
last_version = 2 ^ 64 - 1

unfoldable pub complete_all : List ℕ → Status → Subscriptions → Subscriptions
unfolding complete
complete_all [] code s = s
complete_all (id ∷ ids) code s = complete_all ids code (complete id code s).1

-- `remove_if`
unfoldable pub keep_pending : List ℕ → Subscriptions → List ℕ
keep_pending [] s = []
keep_pending (id ∷ ids) s =
    let rest = keep_pending ids s in if is_pending id s then id ∷ rest else rest

module _ {V : Type 0} where
  unfoldable pub create_latest : Bool → LatestOptions → Result (Latest V)
  create_latest granted o =
      if o.max_retained_bytes == 0 || o.max_subscriptions == 0
      then failed ErrorCode.invalid_argument
      else if not granted
      then failed allocation_failure
      else value (record {
        options = o;
        bytes = 0;
        current = none;
        version = 0;
        closed = false;
        watchers = [];
      })

  abbrev published : V → ℕ → World V → World V
  published v n w = record {
    latest = record w.latest {
      current = some v;
      bytes = n;
      version = w.latest.version + 1;
      watchers = [];
    };
    subscriptions = complete_all w.latest.watchers ErrorCode.ok w.subscriptions;
  }

  unfoldable pub publish : Bool → Option V → ℕ → World V → Status × World V
  unfolding complete_all
  publish granted none n w = (ErrorCode.invalid_argument, w)
  publish granted (some v) n w =
      if ltb w.latest.options.max_retained_bytes n
      then (ErrorCode.too_large, w)
      else if not granted
      then (allocation_failure, w)
      else if w.latest.closed
      then (ErrorCode.closed, w)
      else if w.latest.version == last_version
      then (ErrorCode.too_large, w)
      else (ErrorCode.ok, published v n w)

  -- `ReadImpl`: the state of the call, and the one in which its wait ended.
  unfoldable pub read : ℕ → Bool → Bool → Latest V → Latest V → Result (ℕ × Option V)
  read version waits stopped start l =
      if ltb start.version version
      then failed ErrorCode.invalid_argument
      else if waits && not (l.closed || not (l.version == version))
      then failed (if stopped then ErrorCode.cancelled else ErrorCode.timeout)
      else if stopped
      then failed ErrorCode.cancelled
      else if l.version == version
      then failed (if l.closed then ErrorCode.closed else ErrorCode.would_block)
      else value (l.version, l.current)

  abbrev pub read_after : ℕ → Latest V → Result (ℕ × Option V)
  read_after version l = read version false false l l

  -- The subscription `id` waits, or the list is full.
  unfoldable pub watch : ℕ → Bool → World V → Result ℕ × World V
  unfolding keep_pending reset bind_cancellation
  watch id stopped w =
      let kept = keep_pending w.latest.watchers w.subscriptions in
      if leb w.latest.options.max_subscriptions (length kept)
      then (
        failed ErrorCode.would_block,
        record {
          latest = record w.latest { watchers = kept };
          subscriptions = reset id w.subscriptions;
        },
      )
      else (
        value id,
        record {
          latest = record w.latest { watchers = kept ++ id ∷ [] };
          subscriptions = bind_cancellation stopped id w.subscriptions;
        },
      )

  -- The subscription `id` is completed at once.
  unfoldable pub answer : ℕ → Bool → Status → World V → Result ℕ × World V
  unfolding bind_cancellation source_complete
  answer id stopped code w = (
    value id,
    record w {
      subscriptions = source_complete (some id) code (bind_cancellation stopped id w.subscriptions);
    },
  )

  unfoldable pub subscribe_change : ℕ → ℕ → Bool → Bool → World V → Result ℕ × World V
  unfolding watch answer reset
  subscribe_change version id listed stopped w =
      if not listed
      then (failed allocation_failure, record w { subscriptions = reset id w.subscriptions })
      else if ltb w.latest.version version
      then (
        failed ErrorCode.invalid_argument,
        record w { subscriptions = reset id w.subscriptions },
      )
      else if not (w.latest.version == version)
      then answer id stopped ErrorCode.ok w
      else if w.latest.closed
      then answer id stopped ErrorCode.closed w
      else watch id stopped w

  abbrev change_created :
      World V → (ℕ → World V → Result ℕ × World V) → Result ℕ × Subscriptions → Result ℕ × World V
  change_created w body (failed e, s) = (failed e, record w { subscriptions = s })
  change_created w body (value id, s) = body id (record w { subscriptions = s })

  -- Whether there is a callback, whether its state and the node of the list are granted, and whether
  -- the token is stopped.
  unfoldable pub wait_for_change : ℕ → Bool → Bool → Bool → Bool → World V → Result ℕ × World V
  unfolding create subscribe_change
  wait_for_change version has_callback granted listed stopped w =
      change_created w (λ id u. subscribe_change version id listed stopped u)
        (create has_callback granted w.subscriptions)

  unfoldable pub close : World V → World V
  unfolding complete_all
  close w = record {
    latest = record w.latest { closed = true; watchers = [] };
    subscriptions = complete_all w.latest.watchers ErrorCode.closed w.subscriptions;
  }

  -- `~State`
  unfoldable pub destroy : World V → Subscriptions
  unfolding complete_all
  destroy w = complete_all w.latest.watchers ErrorCode.closed w.subscriptions

  abbrev pub retained_bytes : Latest V → ℕ
  retained_bytes l = l.bytes

pub data Command (V : Type 0) : Type 0 where
  put : (granted : Bool) (v : Option V) (bytes : ℕ) → Command V
  shut : Command V
  wait : (version : ℕ) (has_callback granted listed stopped : Bool) → Command V
  give_up : (id : ℕ) → Command V
  drop : (id : ℕ) → Command V

abbrev pub onto : {A : Type 0} → Option A → List A → List A
onto none xs = xs
onto (some x) xs = x ∷ xs

abbrev pub if_ok : {A : Type 0} → Status → Option A → Option A
if_ok ErrorCode.ok a = a
if_ok _ a = none

module _ {V : Type 0} where
  -- What a call left, and the value if it published one.
  unfoldable pub perform : Command V → World V → Option V × World V
  unfolding publish close wait_for_change cancel reset
  perform (put granted v bytes) w = let out = publish granted v bytes w in (if_ok out.0 v, out.1)
  perform shut w = (none, close w)
  perform (wait version has_callback granted listed stopped) w =
      (none, (wait_for_change version has_callback granted listed stopped w).1)
  perform (give_up id) w = (none, record w { subscriptions = (cancel id w.subscriptions).1 })
  perform (drop id) w = (none, record w { subscriptions = reset id w.subscriptions })

  -- The values that the calls published, in their order, and the end.
  unfoldable pub run : List (Command V) → World V → List V × World V
  unfolding perform
  run [] w = ([], w)
  run (command ∷ commands) w =
      let (new, next) = perform command w in
      let (more, end) = run commands next in (onto new more, end)
