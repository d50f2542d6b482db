-- ===== src/Core/Examples.antt =====
-- Runs of the foundation layer on small inputs.
use server_core.Base.{ℕ, ◌≤◌, ◌≡◌, refl, ◌↔◌, true, false, some, none, List, [], ◌∷◌, arith, All}
use server_core.Core.Completion.Threads.{
  State, System, start, claim, release, retire, may_return, idle, calling, resetting, in_callback,
  move, win, leave, begin_reset, Run, here, after,
}
use server_core.Core.Completion.Threads.Quiet.{reset-quiet}
use server_core.Core.ByteBuffer.{ByteBuffer, create}
use server_core.Core.ByteBuffer.Contract.{
  Call, writes, consumes, buffer_run, queue_run, run_refines,
}
use server_core.Core.Utf8.{is_valid_utf8}
use server_core.Core.Utf8.Scalar.{IsScalar, encode_all}
use server_core.Core.Utf8.Correct.{is_valid_utf8-IsEncoded}

abbrev four_bytes : ByteBuffer
four_bytes = record { storage = 0 ∷ 0 ∷ 0 ∷ 0 ∷ []; read_pos = 0; write_pos = 0 }

-- The second write finds no room behind the live bytes and moves them to the front.
abbrev wrapping_calls : List Call
wrapping_calls =
    writes (1 ∷ 2 ∷ 3 ∷ [])
    ∷ consumes 2
    ∷ writes (4 ∷ 5 ∷ 6 ∷ 7 ∷ [])
    ∷ consumes 5
    ∷ writes (8 ∷ [])
    ∷ []

wrapping_run :
    queue_run 4 [] wrapping_calls
    ≡ some (3, 1 ∷ 2 ∷ 3 ∷ []) ∷ some (2, 3 ∷ []) ∷ some (3, 3 ∷ 4 ∷ 5 ∷ 6 ∷ []) ∷ none ∷ []
unfolding queue_run
wrapping_run = refl

run_refines_example : buffer_run four_bytes wrapping_calls ≡ queue_run 4 [] wrapping_calls
unfolding create
run_refines_example = run_refines 4 four_bytes wrapping_calls refl

-- U+AC00, in three bytes.
abbrev hangul : List ℕ
hangul = 0xEA ∷ 0xB0 ∷ 0x80 ∷ []

is_valid_utf8-IsEncoded_example :
    (is_valid_utf8 hangul ≡ true) ↔ ((cs : List ℕ) × All IsScalar cs × (encode_all cs ≡ hangul))
is_valid_utf8-IsEncoded_example = is_valid_utf8-IsEncoded hangul (omega arith)

hangul-valid : is_valid_utf8 hangul ≡ true
unfolding is_valid_utf8
hangul-valid = refl

-- Thread 0 has called the callback, thread 1 is in `Reset`.
abbrev resetting_late : System
resetting_late = record {
  state =
      release (retire (record { callback = false; done = true; invoking = true; thread = some 0 }));
  place = move (move (move (λ _. idle) 0 calling) 1 resetting) 0 idle;
  calls = 1;
}

late-Run : Run start resetting_late
unfolding claim
late-Run = after (after (after here (win 0 refl refl)) (begin_reset 1)) (leave 0 refl)

abbrev called_back : State
called_back = record { callback = false; done = true; invoking = true; thread = some 0 }

-- While the callback runs, thread 1 has to wait, and thread 0, which runs it, has not.
reset_waits : (may_return 1 called_back ≡ false) × (may_return 0 called_back ≡ true)
unfolding may_return
reset_waits = (refl, refl)

reset-quiet_example :
    ((j : ℕ) → in_callback (resetting_late.place j) ≡ false)
    × (resetting_late.calls ≡ resetting_late.calls)
    × (resetting_late.calls ≤ 1)
unfolding may_return
reset-quiet_example = reset-quiet late-Run 1 refl refl here
