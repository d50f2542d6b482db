-- ===== src/Dispatch/Examples.antt =====
-- The dispatcher and the job queue at concrete inputs.
use server_core.Base.{
  ℕ, ◌+◌, ◌≤◌, ◌<◌, ◌≡◌, ◌≢◌, refl, ◌⊎◌, true, false, none, some, List, [], ◌∷◌, ◌++◌, ltb,
  if◌then◌else◌,
}
use server_core.Core.Error.{ErrorCode, Status}
use server_core.Dispatch.Dispatcher.{
  Message, disconnect, log_and_ignore, Dispatcher, called, logged, disconnected, register, dispatch,
  Change, registers, freezes, sets_policy, apply_changes,
}
use server_core.Dispatch.Dispatcher.Routing.{register-dispatch}
use server_core.Dispatch.JobQueue.{Call, posts_job, drains, posted_by, run_calls}
use server_core.Dispatch.JobQueue.Order.{run_calls-ordered}

abbrev new_dispatcher : Dispatcher ℕ
new_dispatcher = record {
  handlers = [];
  frozen = false;
  policy = log_and_ignore;
  has_logger = true;
}

-- A handler is its number, a session nothing, and each call succeeds.
abbrev succeed : ℕ → ℕ → Message → Status
succeed h session m = ErrorCode.ok

abbrev chat : List ℕ
chat = 0x63 ∷ []

abbrev chat_message : Message
chat_message = record { type_name = chat; has_body = true; raw_body_size = 5 }

-- A second handler for the type is refused.
abbrev later_changes : List (Change ℕ)
later_changes = registers true chat (some 8) 1 ∷ freezes ∷ sets_policy disconnect ∷ []

chat_dispatched :
    dispatch succeed true
      (some 1)
      chat_message
      (apply_changes later_changes (register true chat (some 7) 9 new_dispatcher).1)
    ≡ (ErrorCode.ok, called 7 ∷ [])
unfolding dispatch apply_changes
chat_dispatched = refl

unknown_disconnected :
    dispatch succeed true
      (some 1)
      chat_message
      (apply_changes later_changes (record new_dispatcher { frozen = true }))
    ≡ (ErrorCode.unknown_type, logged chat ∷ disconnected ErrorCode.unknown_type ∷ [])
unfolding dispatch apply_changes
unknown_disconnected = refl

register-dispatch_example :
    let out =
      dispatch succeed true
        (some 1)
        chat_message
        (apply_changes later_changes (register true chat (some 7) 9 new_dispatcher).1) in
    ((chat ≡ chat)
      × (((true ≡ false) × (out ≡ (ErrorCode.invalid_format, [])))
          ⊎ ((true ≡ true) × (9 < 5) × (out ≡ (ErrorCode.too_large, [])))
          ⊎ ((true ≡ true) × (5 ≤ 9) × (out ≡ (ErrorCode.ok, called 7 ∷ [])))))
    ⊎ ((chat ≢ chat)
        × (out
            ≡ dispatch succeed true
                (some 1)
                chat_message
                (apply_changes later_changes new_dispatcher)))
unfolding register
register-dispatch_example =
    register-dispatch succeed 1 true chat 7 9 new_dispatcher
      (register true chat (some 7) 9 new_dispatcher).1 later_changes chat_message refl

-- A job posts the next number, up to 3.
abbrev counting : ℕ → List ℕ
counting n = if ltb n 3 then (n + 1) ∷ [] else []

abbrev job_calls : List (Call ℕ)
job_calls =
    posts_job true (some 1) ∷ posts_job true none ∷ drains ∷ posts_job true (some 9) ∷ drains ∷ []

job_run : (run_calls counting job_calls []).ran ≡ 1 ∷ 2 ∷ 9 ∷ []
unfolding run_calls
job_run = refl

run_calls-ordered_example :
    let t = run_calls counting job_calls [] in
    (t.ran ++ t.queue ≡ t.accepted)
    × ((run_calls counting (drains ∷ []) []).ran ≡ [])
    × ((run_calls counting (drains ∷ []) []).queue ≡ posted_by counting [])
run_calls-ordered_example = run_calls-ordered counting job_calls []
