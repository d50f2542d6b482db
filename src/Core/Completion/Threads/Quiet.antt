-- ===== src/Core/Completion/Threads/Quiet.antt =====
-- The callback of a subscription is called at most once, and never while or after a `Reset` returns.
use server_core.Base.{
  ℕ, suc, ◌≤◌, ◌≡◌, refl, sym, subst, ◌⊎◌, inl, inr, true, false, some, arith, ==_iff,
  some-injective, Bool-cases, Option-cases,
}
use server_core.Core.Completion.Threads.{
  State, claim, may_return, idle, calling, resetting, in_callback, move, System, start, Step, win,
  lose, leave, begin_reset, end_reset, Run, here, after,
}

record IsOnce (s : System) : Type 0 where
  pub unclaimed : (s.state.done ≡ false) → s.calls ≡ 0
  pub once : s.calls ≤ 1
  pub runs : (i : ℕ) → in_callback (s.place i) ≡ true → s.state.thread ≡ some i
  pub busy : (i : ℕ) → in_callback (s.place i) ≡ true → s.state.invoking ≡ true
  pub runner : (i : ℕ) → s.state.thread ≡ some i → in_callback (s.place i) ≡ true
  pub over : (i : ℕ) → s.place i ≡ resetting → s.state.done ≡ true
  pub invoked : s.state.invoking ≡ true → s.state.done ≡ true

start-IsOnce : IsOnce start
start-IsOnce = record {
  unclaimed = λ h. refl;
  once = omega arith;
  runs = λ i h. cc;
  busy = λ i h. cc;
  runner = λ i h. cc;
  over = λ i h. cc;
  invoked = λ h. cc;
}

claim-won :
    (i : ℕ) (s t : State)
    → claim i s ≡ (true, t)
    → (s.done ≡ false)
      × (t ≡ record { callback = false; done = true; invoking = true; thread = some i })
unfolding claim
claim-won i s t e = ground (arith, e)

claim-lost : (i : ℕ) (s t : State) → claim i s ≡ (false, t) → (s ≡ t) × (s.done ≡ true)
unfolding claim
claim-lost i s t e = ground (arith, e)

-- No thread is in the callback while the subscription is open.
open-idle :
    {s : System} → IsOnce s → s.state.done ≡ false → (j : ℕ) → in_callback (s.place j) ≡ false
open-idle {s} v d j = elim (Bool-cases (in_callback (s.place j))) [
  | inl h ↦ cc (v.invoked (v.busy j h), d)
  | inr h ↦ h
]

win-IsOnce :
    (s : System) (i : ℕ)
    → s.place i ≡ idle
    → s.state.done ≡ false
    → IsOnce s
    → IsOnce (record {
      state = record { callback = false; done = true; invoking = true; thread = some i };
      place = move s.place i calling;
      calls = suc s.calls;
    })
win-IsOnce s i p d v = record {
  unclaimed = λ h. cc;
  once = omega (arith, v.unclaimed d);
  runs = λ j h. ground (arith, ==_iff i j, open-idle v d j);
  busy = λ j h. refl;
  runner = λ j h. ground (arith, ==_iff i j, some-injective i j h);
  over = λ j h. refl;
  invoked = λ h. refl;
}

Step-IsOnce : {s t : System} → Step s t → IsOnce s → IsOnce t
Step-IsOnce {s} (win i {t} p e) v =
    let (d, q) = claim-won i s.state t e in
    subst (λ z. IsOnce (record { state = z; place = move s.place i calling; calls = suc s.calls }))
      (sym q) (win-IsOnce s i p d v)
Step-IsOnce {s} (lose i {t} e) v =
    subst (λ z. IsOnce (record s { state = z })) (claim-lost i s.state t e).0 v
Step-IsOnce {s} (leave i p) v = record {
  unclaimed = v.unclaimed;
  once = v.once;
  runs = λ j h. ground (arith, ==_iff i j, v.runs i, v.runs j, h);
  busy = λ j h. ground (arith, ==_iff i j, v.runs i, v.runs j, h);
  runner = λ j h. cc;
  over = λ j h. ground (arith, ==_iff i j, v.over j, h);
  invoked = λ h. cc;
}
Step-IsOnce {s} (begin_reset i) v = record {
  unclaimed = λ h. cc;
  once = v.once;
  runs = λ j h. ground (arith, ==_iff i j, v.runs j, h);
  busy = λ j h. ground (arith, ==_iff i j, v.busy j, h);
  runner = λ j h. ground (arith, ==_iff i j, v.runner j, h);
  over = λ j h. refl;
  invoked = λ h. refl;
}
Step-IsOnce {s} (end_reset i p m) v = record {
  unclaimed = v.unclaimed;
  once = v.once;
  runs = λ j h. ground (arith, ==_iff i j, v.runs j, h);
  busy = λ j h. ground (arith, ==_iff i j, v.busy j, h);
  runner = λ j h. ground (arith, ==_iff i j, v.runner j, h);
  over = λ j h. ground (arith, ==_iff i j, v.over j, h);
  invoked = v.invoked;
}

Run-IsOnce : {s t : System} → Run s t → IsOnce s → IsOnce t
Run-IsOnce here v = v
Run-IsOnce (after r st) v = Step-IsOnce st (Run-IsOnce r v)

record IsQuiet (n : ℕ) (s : System) : Type 0 where
  pub done : s.state.done ≡ true
  pub outside : (j : ℕ) → in_callback (s.place j) ≡ false
  pub count : s.calls ≡ n

Step-IsQuiet : {n : ℕ} {s t : System} → Step s t → IsQuiet n s → IsQuiet n t
Step-IsQuiet {s} (win i {t} p e) q = let (d, _) = claim-won i s.state t e in cc (d, q.done)
Step-IsQuiet {n} {s} (lose i {t} e) q =
    subst (λ z. IsQuiet n (record s { state = z })) (claim-lost i s.state t e).0 q
Step-IsQuiet (leave i p) q = cc (q.outside i, p)
Step-IsQuiet {s} (begin_reset i) q = record {
  done = refl;
  outside = λ j. ground (arith, ==_iff i j, q.outside j);
  count = q.count;
}
Step-IsQuiet {s} (end_reset i p m) q = record {
  done = q.done;
  outside = λ j. ground (arith, ==_iff i j, q.outside j, q.outside i);
  count = q.count;
}

Run-IsQuiet : {n : ℕ} {s t : System} → Run s t → IsQuiet n s → IsQuiet n t
Run-IsQuiet here q = q
Run-IsQuiet (after r st) q = Step-IsQuiet st (Run-IsQuiet r q)

may_return-cases :
    (i : ℕ) (s : State) → may_return i s ≡ true → (s.thread ≡ some i) ⊎ (s.invoking ≡ false)
unfolding may_return
may_return-cases i s m = elim (Option-cases s.thread) [
  | inl n ↦ ground (arith, n, m)
  | inr (k, n) ↦ ground (arith, n, m, ==_iff k i)
]

returned-IsQuiet :
    {s : System}
    → IsOnce s
    → (i : ℕ) → s.place i ≡ resetting
    → may_return i s.state ≡ true
    → IsQuiet s.calls s
returned-IsQuiet {s} v i p m = record {
  done = v.over i p;
  outside = λ j. elim (Bool-cases (in_callback (s.place j))) [
    | inl h ↦ elim (may_return-cases i s.state m) [
      | inl e ↦ cc (v.runner i e, p)
      | inr e ↦ cc (v.busy j h, e)
    ]
    | inr h ↦ h
  ];
  count = refl;
}

-- When a thread outside the callback may return from `Reset`, no thread is in the callback, and
-- whatever the threads do afterwards none enters it again: it was called once or never.
pub reset-quiet :
    {s t : System}
    → Run start s
    → (i : ℕ) → s.place i ≡ resetting
    → may_return i s.state ≡ true
    → Run s t
    → ((j : ℕ) → in_callback (t.place j) ≡ false) × (t.calls ≡ s.calls) × (t.calls ≤ 1)
reset-quiet r i p m later =
    let v = Run-IsOnce r start-IsOnce in
    let q = Run-IsQuiet later (returned-IsQuiet v i p m) in
    (q.outside, q.count, (Run-IsOnce later v).once)
